-- ===== src/Wifi/Machine.antt =====
-- `airdap_wifi_state_machine_step` with its types, of firmware/components/wifi_manager. A pointer is an
-- `Option`.
use air_dap.Prelude.{
  ℕ, ◌*◌, ◌/◌, ◌%◌, ◌^◌, Bool, true, false, not, ◌&&◌, Option, none, some, leb, ◌==◌, if◌then◌else◌,
}

abbrev pub initial_delay_ms : ℕ
initial_delay_ms = 1000

abbrev pub max_delay_ms : ℕ
max_delay_ms = 60000

pub data State : Type 0 where
  stopped disconnected connecting online : State

pub data Failure : Type 0 where
  no_failure authentication transient : Failure

-- `unknown` is any value that the `switch` does not list.
pub data Event : Type 0 where
  sta_started link_connected link_disconnected got_ip lost_ip authentication_failed : Event
  transient_disconnect connect_failed retry_expired : Event
  configuration_updated configuration_cleared unknown : Event

pub record Machine : Type 0 where
  pub state : State
  pub last_failure : Failure
  pub retry_delay_ms : ℕ
  pub has_configuration : Bool
  pub link_up : Bool

pub record Effects : Type 0 where
  pub connect : Bool
  pub disconnect : Bool
  pub reconfigure : Bool
  pub cancel_retry : Bool
  pub publish_state : Bool
  pub published_state : State
  pub retry_after_ms : ℕ

-- `memset(effects, 0, sizeof(*effects))`
abbrev pub no_effects : Effects
no_effects = record {
  connect = false;
  disconnect = false;
  reconfigure = false;
  cancel_retry = false;
  publish_state = false;
  published_state = stopped;
  retry_after_ms = 0;
}

publish : Effects → State → Effects
publish effects state = record effects { publish_state = true; published_state = state }

unfoldable pub next_retry_delay : ℕ → ℕ
next_retry_delay current =
    if current == 0
    then initial_delay_ms
    else if leb (max_delay_ms / 2) current
    then max_delay_ms
    else current * 2 % 2 ^ 32

handle_failure : Machine → Failure → Machine × Effects
unfolding publish
handle_failure machine failure =
    let delay = next_retry_delay machine.retry_delay_ms in
    if not machine.has_configuration then (machine, no_effects) else (
      record machine {
        state = disconnected;
        last_failure = failure;
        link_up = false;
        retry_delay_ms = delay;
      },
      publish (record no_effects { retry_after_ms = delay }) disconnected,
    )

abbrev pub is_stopped : State → Bool
is_stopped stopped = true
is_stopped _ = false

abbrev pub is_disconnected : State → Bool
is_disconnected disconnected = true
is_disconnected _ = false

abbrev pub is_connecting : State → Bool
is_connecting connecting = true
is_connecting _ = false

abbrev pub is_online : State → Bool
is_online online = true
is_online _ = false

-- The start of an attempt to connect.
abbrev start_connecting : Machine → Machine × Effects
start_connecting machine = (
  record machine { state = connecting; link_up = false },
  record no_effects { connect = true; publish_state = true; published_state = connecting },
)

-- The `switch`, at pointers that are not `NULL`.
unfoldable pub step : Machine → Event → Bool × Machine × Effects
unfolding publish handle_failure
step machine sta_started =
    let started = start_connecting machine in
    if machine.has_configuration && is_stopped machine.state
    then (true, started.0, started.1)
    else (true, machine, no_effects)
step machine link_connected =
    if is_connecting machine.state
    then (true, record machine { link_up = true }, no_effects)
    else (true, machine, no_effects)
step machine link_disconnected = (true, record machine { link_up = false }, no_effects)
step machine got_ip =
    if is_connecting machine.state && machine.link_up
    then (
      true,
      record machine { state = online; last_failure = no_failure; retry_delay_ms = 0 },
      publish no_effects online,
    )
    else (true, machine, no_effects)
step machine lost_ip =
    if is_online machine.state && machine.link_up
    then (
      true,
      record machine { state = connecting; last_failure = transient },
      publish no_effects connecting,
    )
    else (true, machine, no_effects)
step machine authentication_failed =
    let (m, e) = handle_failure machine authentication in (true, m, e)
step machine transient_disconnect = let (m, e) = handle_failure machine transient in (true, m, e)
step machine connect_failed = let (m, e) = handle_failure machine transient in (true, m, e)
step machine retry_expired =
    let started = start_connecting machine in
    if machine.has_configuration && is_disconnected machine.state
    then (true, started.0, started.1)
    else (true, machine, no_effects)
step machine configuration_updated = (
  true,
  record {
    state = connecting;
    last_failure = no_failure;
    retry_delay_ms = 0;
    has_configuration = true;
    link_up = false;
  },
  publish (record no_effects { cancel_retry = true; reconfigure = true }) connecting,
)
step machine configuration_cleared = (
  true,
  record {
    state = stopped;
    last_failure = no_failure;
    retry_delay_ms = 0;
    has_configuration = false;
    link_up = false;
  },
  publish (record no_effects { cancel_retry = true; disconnect = true }) stopped,
)
step machine unknown = (false, machine, no_effects)

unfoldable pub state_machine_step :
    Option Machine → Event → Option Effects → Bool × Option Machine × Option Effects
state_machine_step none event effects = (false, none, effects)
state_machine_step (some machine) event none = (false, some machine, none)
state_machine_step (some machine) event (some _) =
    let (known, machine', effects) = step machine event in (known, some machine', some effects)

unfoldable pub init : Option Machine → Bool → Option Machine
init none has_configuration = none
init (some _) has_configuration = some (record {
  state = stopped;
  last_failure = no_failure;
  retry_delay_ms = 0;
  has_configuration = has_configuration;
  link_up = false;
})
