-- ===== src/Bindings/Updates.antt =====
-- What setting a binding of firmware/components/button_config/button_config.c leaves, in memory and for a
-- reader.
use air_dap.Bindings.{
  Config, ConfigError, config_ok, is_config_ok, Platform, pack_commands, is_bound, commands_from,
  config_get, gesture_count, store_record, publish_commands, updated, update, config_set,
  is_gesture, is_command, is_given,
}
use air_dap.Bindings.Word.{packed}
use air_dap.Prelude.{
  ℕ, zero, suc, ◌<◌, ◌≡◌, ◌⊎◌, inl, inr, refl, sym, ap, ◌∙◌, subst, ◌==◌, arith, true, false, not,
  ◌&&◌, ◌||◌, Option, some, List, [], ◌∷◌, write_at, Bool-cases, if◌then◌else◌,
}

-- A word that is read as these commands.
abbrev Holds : ℕ → List ℕ → Type 0
Holds word commands = (is_bound word ≡ true) × (commands_from gesture_count 0 word ≡ commands)

-- Either the call succeeds and a reader finds the commands, or it fails and nothing has changed.
abbrev pub Published : Config → List ℕ → ConfigError × Config → Type 0
Published c commands (error, c') =
    ((error ≡ config_ok) × (config_get (some []) c' ≡ (config_ok, some commands)))
    ⊎ ((is_config_ok error ≡ false) × (c' ≡ c))

config_get-Holds :
    (c : Config) (commands : List ℕ)
    → Holds c.bindings commands
    → config_get (some []) c ≡ (config_ok, some commands)
unfolding config_get
config_get-Holds c commands h = rw h.0 (ap (λ (l : List ℕ). (config_ok, some l)) h.1)

ok_or_not : (e : ConfigError) → (e ≡ config_ok) ⊎ (is_config_ok e ≡ false)
ok_or_not e = elim (Bool-cases (is_config_ok e)) [ inl h ↦ inl (ground (arith, h)) | inr h ↦ inr h ]

module _ {S : Type 0} (platform : Platform S) (c : Config) where
  publish_commands-Published :
      (commands : List ℕ) (s : S)
      → Holds (pack_commands commands) commands
      → Published c commands
          ((publish_commands platform commands c s).0, (publish_commands platform commands c s).1)
  unfolding publish_commands
  publish_commands-Published commands s h =
      elim (Bool-cases (pack_commands commands == c.bindings)) [
        | inl e ↦ rw e (
            inl (
              refl,
              config_get-Holds c commands
                  (subst (λ (t : ℕ). Holds t commands) (ground (arith, e)) h),
            ))
        | inr e ↦ rw e (stored (ok_or_not _))
      ]
    where
      error : ConfigError
      error = (store_record platform (2 ∷ commands) s).0

      stored :
          (error ≡ config_ok) ⊎ (is_config_ok error ≡ false)
          → Published c commands (
            error,
            if is_config_ok error then record c { bindings = pack_commands commands } else c,
          )
      stored (inl g) = inl (
        g,
        ap
              (λ (t : ConfigError).
                config_get (some [])
                  (if is_config_ok t then record c { bindings = pack_commands commands } else c))
              g
            ∙ config_get-Holds (record c { bindings = pack_commands commands }) commands h,
      )
      stored (inr g) = inr (g, rw g refl)

  update-Published :
      (gesture : Option ℕ) (command : ℕ) (new : List ℕ) (s : S)
      → updated gesture command c ≡ (config_ok, new)
      → Holds (pack_commands new) new
      → Published c new
          ((update platform gesture command c s).0, (update platform gesture command c s).1)
  unfolding update
  update-Published gesture command new s p h =
      elim (Bool-cases (not c.storage_ready || is_given gesture && not (is_bound c.bindings))) [
        | inl e ↦ rw e (inr (refl, refl))
        | inr e ↦ elim (Bool-cases (not (platform.take_mutex s).0)) [
          | inl f ↦ rw (e, f) (inr (refl, refl))
          | inr f ↦ rw (e, f, p) (publish_commands-Published new (platform.take_mutex s).1 h)
        ]
      ]

-- The commands with one of them replaced.
rebound :
    (gesture command a b c d e : ℕ)
    → gesture < 5
    → command < 16
    → a < 16
    → b < 16
    → c < 16
    → d < 16
    → e < 16
    → Holds
        (pack_commands (write_at gesture (command ∷ []) (a ∷ b ∷ c ∷ d ∷ e ∷ [])))
        (write_at gesture (command ∷ []) (a ∷ b ∷ c ∷ d ∷ e ∷ []))
rebound zero x a b c d e g hx ha hb hc hd he = packed x b c d e hx hb hc hd he
rebound (suc zero) x a b c d e g hx ha hb hc hd he = packed a x c d e ha hx hc hd he
rebound (suc (suc zero)) x a b c d e g hx ha hb hc hd he = packed a b x d e ha hb hx hd he
rebound (suc (suc (suc zero))) x a b c d e g hx ha hb hc hd he = packed a b c x e ha hb hc hx he
rebound (suc (suc (suc (suc zero)))) x a b c d e g hx ha hb hc hd he =
    packed a b c d x ha hb hc hd hx
rebound (suc (suc (suc (suc (suc n))))) x a b c d e g hx ha hb hc hd he = absurd (omega (arith, g))

updated_lem :
    (gesture command : ℕ) (c : Config) (commands : List ℕ)
    → Holds c.bindings commands
    → updated (some gesture) command c ≡ (config_ok, write_at gesture (command ∷ []) commands)
unfolding updated
updated_lem gesture command c commands h =
    rw h.0 (ap (λ (l : List ℕ). (config_ok, write_at gesture (command ∷ []) l)) h.1)

-- Where five commands are bound, and whatever the platform answers: setting a gesture's command either
-- succeeds, and a reader finds that gesture's command replaced and the four others as they were, or it
-- fails, and the bindings and the other variables are what they were.
pub config_set-Published :
    {S : Type 0} (platform : Platform S) (gesture command : ℕ) (c : Config) (s : S) (a b d e f : ℕ)
    → a < 16
    → b < 16
    → d < 16
    → e < 16
    → f < 16
    → c.bindings ≡ pack_commands (a ∷ b ∷ d ∷ e ∷ f ∷ [])
    → let out = config_set platform gesture command c s in
      Published c (write_at gesture (command ∷ []) (a ∷ b ∷ d ∷ e ∷ f ∷ [])) (out.0, out.1)
unfolding config_set
config_set-Published platform gesture command c s a b d e f ha hb hd he hf bound =
    elim (Bool-cases (not (is_gesture gesture) || not (is_command command))) [
      | inl q ↦ rw q (inr (refl, refl))
      | inr q ↦ rw q (
          update-Published platform c (some gesture) command _ s replaced (
            rebound gesture command a b d e f (ground (arith, q)) (ground (arith, q)) ha hb hd he
              hf))
    ]
  where
    replaced :
        updated (some gesture) command c
        ≡ (config_ok, write_at gesture (command ∷ []) (a ∷ b ∷ d ∷ e ∷ f ∷ []))
    replaced = updated_lem gesture command c (a ∷ b ∷ d ∷ e ∷ f ∷ []) (
        subst (λ (t : ℕ). Holds t (a ∷ b ∷ d ∷ e ∷ f ∷ [])) (sym bound)
          (packed a b d e f ha hb hd he hf))
