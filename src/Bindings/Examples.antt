-- ===== src/Bindings/Examples.antt =====
-- The theorem on firmware/components/button_config/button_config.c at a concrete platform.
use air_dap.Bindings.{config_ok, Config, Platform, config_set, pack_commands}
use air_dap.Bindings.Updates.{Published, config_set-Published}
use air_dap.Prelude.{ℕ, ◌+◌, refl, arith, true, [], ◌∷◌, write_at}

-- A platform that counts its commits.
abbrev counting : Platform ℕ
counting = record {
  create_mutex = λ s. (true, s);
  take_mutex = λ s. (true, s);
  give_mutex = λ s. s;
  open_nvs = λ s. (config_ok, s);
  get_blob = λ bytes s. (config_ok, bytes, 6, s);
  set_blob = λ bytes s. (config_ok, s);
  commit = λ s. (config_ok, s + 1);
  close = λ s. s;
}

abbrev bound_config : Config
bound_config = record {
  bindings = pack_commands (0 ∷ 12 ∷ 2 ∷ 0 ∷ 3 ∷ []);
  storage_ready = true;
  has_mutex = true;
}

config_set-Published_example :
    let out = config_set counting 3 7 bound_config 0 in
    Published bound_config (write_at 3 (7 ∷ []) (0 ∷ 12 ∷ 2 ∷ 0 ∷ 3 ∷ [])) (out.0, out.1)
config_set-Published_example =
    config_set-Published counting 3 7 bound_config 0 0 12 2 0 3 (omega arith) (omega arith)
      (omega arith) (omega arith) (omega arith) refl
