-- ===== src/Bindings.antt =====
-- The commands bound to the button's gestures: firmware/components/button_config/button_config.c, over
-- the NVS library and the mutex as functions on a state of their own.
pub mod Word
pub mod Updates
pub mod Examples
use air_dap.Prelude.{
  ℕ, zero, suc, ◌+◌, ◌*◌, ◌/◌, ◌%◌, ◌^◌, bit_and, bit_or, Bool, true, false, not, ◌&&◌, ◌||◌, ltb,
  ◌==◌, Option, none, some, List, [], ◌∷◌, ◌++◌, take, drop, get_or, length, write_at,
  if◌then◌else◌,
}

abbrev pub gesture_count : ℕ
gesture_count = 5

abbrev pub command_count : ℕ
command_count = 13

abbrev pub gesture_double : ℕ
gesture_double = 1

abbrev pub command_none : ℕ
command_none = 0

abbrev pub command_dap_toggle : ℕ
command_dap_toggle = 1

abbrev pub command_provisioning : ℕ
command_provisioning = 2

abbrev pub command_clear_network_restart : ℕ
command_clear_network_restart = 3

abbrev pub command_dap_network_auto_toggle : ℕ
command_dap_network_auto_toggle = 12

abbrev pub record_version : ℕ
record_version = 2

abbrev pub record_size : ℕ
record_size = 1 + gesture_count

abbrev pub bound_bit : ℕ
bound_bit = 2 ^ 31

abbrev pub default_commands : List ℕ
default_commands =
    command_none ∷ command_dap_network_auto_toggle ∷ command_provisioning ∷ command_none
    ∷ command_clear_network_restart ∷ []

-- The `esp_err_t` values that the source tells apart, and any other.
pub data ConfigError : Type 0 where
  config_ok config_fail bad_arg not_ready no_mem nvs_missing bad_size bad_version nvs_error :
      ConfigError

abbrev pub is_config_ok : ConfigError → Bool
is_config_ok config_ok = true
is_config_ok _ = false

-- The static variables; the commands of `bindings` are packed in one word.
pub record Config : Type 0 where
  pub bindings : ℕ
  pub storage_ready : Bool
  pub has_mutex : Bool

-- The platform: each function may fail. `get_blob` is given the record and returns it with its size.
pub record Platform (S : Type 0) : Type 0 where
  pub create_mutex : S → Bool × S
  pub take_mutex : S → Bool × S
  pub give_mutex : S → S
  pub open_nvs : S → ConfigError × S
  pub get_blob : List ℕ → S → ConfigError × List ℕ × ℕ × S
  pub set_blob : List ℕ → S → ConfigError × S
  pub commit : S → ConfigError × S
  pub close : S → S

-- Whether the command and the gesture have a name.
abbrev pub is_command : ℕ → Bool
is_command command = ltb command command_count

abbrev pub is_gesture : ℕ → Bool
is_gesture gesture = ltb gesture gesture_count

unfoldable pub all_commands : List ℕ → Bool
all_commands [] = true
all_commands (c ∷ cs) = is_command c && all_commands cs

unfoldable pub pack_from : ℕ → ℕ → List ℕ → ℕ
pack_from i word [] = word
pack_from i word (c ∷ cs) = pack_from (i + 1) (bit_or word (c * 2 ^ (4 * i) % 2 ^ 32)) cs

unfoldable pub pack_commands : List ℕ → ℕ
pack_commands commands = pack_from 0 bound_bit commands

abbrev pub is_bound : ℕ → Bool
is_bound word = not (bit_and word bound_bit == 0)

-- `left` commands of a word, from number `i` on.
unfoldable pub commands_from : ℕ → ℕ → ℕ → List ℕ
commands_from zero i word = []
commands_from (suc left) i word = bit_and (word / 2 ^ (4 * i)) 0xf ∷ commands_from left (i + 1) word

-- `airdap_button_config_get`, with what its pointer points to.
unfoldable pub config_get : Option (List ℕ) → Config → ConfigError × Option (List ℕ)
config_get none c = (bad_arg, none)
config_get (some old) c =
    if is_bound c.bindings
    then (config_ok, some (commands_from gesture_count 0 c.bindings))
    else (not_ready, some old)

-- The commands that `update` stores: the gesture is `none` for a negative number.
unfoldable pub updated : Option ℕ → ℕ → Config → ConfigError × List ℕ
updated none command c = (config_ok, default_commands)
updated (some gesture) command c =
    if is_bound c.bindings
    then (config_ok, write_at gesture (command ∷ []) (commands_from gesture_count 0 c.bindings))
    else (not_ready, [])

abbrev pub is_given : Option ℕ → Bool
is_given none = false
is_given (some _) = true

-- What `init` makes of the record that it has read: an error, or the record to use.
unfoldable pub checked_record : ConfigError → List ℕ → ℕ → ConfigError × List ℕ
checked_record nvs_missing bytes size = (config_ok, take 1 bytes ++ default_commands)
checked_record config_ok bytes size =
    if not (size == record_size)
    then (bad_size, bytes)
    else if not (get_or bytes 0 0 == 1) && not (get_or bytes 0 0 == record_version)
    then (bad_version, bytes)
    else if all_commands (drop 1 bytes)
    then (config_ok, bytes)
    else (bad_arg, bytes)
checked_record other bytes size = (other, bytes)

module _ {S : Type 0} (platform : Platform S) where
  -- `nvs_open`, `nvs_set_blob`, `nvs_commit` and `nvs_close` of `update`.
  unfoldable pub store_record : List ℕ → S → ConfigError × S
  store_record bytes s =
      let opened = platform.open_nvs s in
      let written = platform.set_blob bytes opened.1 in
      let committed = platform.commit written.1 in
      if not (is_config_ok opened.0)
      then opened
      else if not (is_config_ok written.0)
      then (written.0, platform.close written.1)
      else (committed.0, platform.close committed.1)

  -- `update` inside its mutex, on the new commands.
  unfoldable pub publish_commands : List ℕ → Config → S → ConfigError × Config × S
  publish_commands commands c s =
      let word = pack_commands commands in
      let stored = store_record (record_version ∷ commands) s in
      if word == c.bindings
      then (config_ok, c, s)
      else (stored.0, (if is_config_ok stored.0 then record c { bindings = word } else c), stored.1)

  unfoldable pub update : Option ℕ → ℕ → Config → S → ConfigError × Config × S
  update gesture command c s =
      let taken = platform.take_mutex s in
      let commands = updated gesture command c in
      let out = publish_commands commands.1 c taken.1 in
      if not c.storage_ready || is_given gesture && not (is_bound c.bindings)
      then (not_ready, c, s)
      else if not taken.0
      then (config_fail, c, taken.1)
      else if is_config_ok commands.0
      then (out.0, out.1, platform.give_mutex out.2)
      else (commands.0, c, platform.give_mutex taken.1)

  unfoldable pub config_set : ℕ → ℕ → Config → S → ConfigError × Config × S
  config_set gesture command c s =
      if not (is_gesture gesture) || not (is_command command)
      then (bad_arg, c, s)
      else update (some gesture) command c s

  unfoldable pub config_defaults : Config → S → ConfigError × Config × S
  config_defaults c s = update none command_none c s

  -- The migration of a record of the first version, and its storage.
  unfoldable pub migrate : List ℕ → S → ConfigError × List ℕ × S
  migrate bytes s =
      let commands = drop 1 bytes in
      let renewed =
        if get_or commands gesture_double 0 == command_dap_toggle
        then write_at gesture_double (command_dap_network_auto_toggle ∷ []) commands
        else commands in
      let written = platform.set_blob (record_version ∷ renewed) s in
      let committed = platform.commit written.1 in
      if not (get_or bytes 0 0 == 1)
      then (config_ok, bytes, s)
      else if not (is_config_ok written.0)
      then (written.0, record_version ∷ renewed, written.1)
      else (committed.0, record_version ∷ renewed, committed.1)

  unfoldable pub config_init : Config → S → ConfigError × Config × S
  config_init c s =
      let made = if c.has_mutex then (true, s) else platform.create_mutex s in
      let ready : Config = record c { has_mutex = true; storage_ready = true } in
      let opened = platform.open_nvs made.1 in
      let read = platform.get_blob (record_version ∷ 0 ∷ 0 ∷ 0 ∷ 0 ∷ 0 ∷ []) opened.1 in
      let checked = checked_record read.0 read.1 read.2 in
      let migrated = migrate checked.1 read.3 in
      if is_bound c.bindings
      then (not_ready, c, s)
      else if not made.0
      then (no_mem, c, made.1)
      else if not (is_config_ok opened.0)
      then (opened.0, ready, opened.1)
      else if not (is_config_ok checked.0)
      then (checked.0, ready, platform.close read.3)
      else if not (is_config_ok migrated.0)
      then (migrated.0, ready, platform.close migrated.2)
      else (
        config_ok,
        record ready { bindings = pack_commands (drop 1 migrated.1) },
        platform.close migrated.2,
      )
