-- ===== src/Mode/Word/Layout.antt =====
-- The mode word of firmware/components/mode_state/mode_state.c as a record of its fields.
use air_dap.Prelude.{
  ℕ, ◌+◌, ◌*◌, ◌/◌, ◌%◌, ◌^◌, ◌<◌, ◌≡◌, refl, ap, ◌∙◌, ◌==◌, arith, Bool, true, false,
}

pub record Modes : Type 0 where
  pub usb : Bool
  pub wifi : ℕ
  pub provisioning : ℕ
  pub ota : ℕ
  pub ready : Bool
  pub usb_ota_epoch : ℕ
  pub wifi_epoch : ℕ
  pub shell : Bool
  pub shell_epoch : ℕ
  pub route : ℕ

abbrev pub digit : Bool → ℕ
digit true = 1
digit false = 0

pub digit-lt : (b : Bool) → digit b < 2
digit-lt true = omega arith
digit-lt false = omega arith

-- The word whose fields are `v`.
unfoldable pub pack : Modes → ℕ
pack v =
    digit v.usb
    + v.wifi * 2 ^ 1
    + v.provisioning * 2 ^ 3
    + v.ota * 2 ^ 5
    + digit v.ready * 2 ^ 7
    + v.usb_ota_epoch * 2 ^ 8
    + v.wifi_epoch * 2 ^ 16
    + digit v.shell * 2 ^ 24
    + v.shell_epoch * 2 ^ 25
    + v.route * 2 ^ 30

-- Every field fits its bits.
pub record FitsIn (wifi provisioning ota usb_ota_epoch wifi_epoch shell_epoch route : ℕ)
    : Type 0 where
  pub wifi-lt : wifi < 4
  pub provisioning-lt : provisioning < 4
  pub ota-lt : ota < 4
  pub usb_ota_epoch-lt : usb_ota_epoch < 256
  pub wifi_epoch-lt : wifi_epoch < 256
  pub shell_epoch-lt : shell_epoch < 32
  pub route-lt : route < 4

abbrev pub Fits : Modes → Type 0
Fits v = FitsIn v.wifi v.provisioning v.ota v.usb_ota_epoch v.wifi_epoch v.shell_epoch v.route

-- The fields of a word.
unfoldable pub unpack : ℕ → Modes
unpack c = record {
  usb = c % 2 == 1;
  wifi = c / 2 ^ 1 % 4;
  provisioning = c / 2 ^ 3 % 4;
  ota = c / 2 ^ 5 % 4;
  ready = c / 2 ^ 7 % 2 == 1;
  usb_ota_epoch = c / 2 ^ 8 % 256;
  wifi_epoch = c / 2 ^ 16 % 256;
  shell = c / 2 ^ 24 % 2 == 1;
  shell_epoch = c / 2 ^ 25 % 32;
  route = c / 2 ^ 30 % 4;
}

digit-test : (n : ℕ) → n < 2 → digit (n == 1) ≡ n
digit-test n h = ground arith

pub unpack-Fits : (c : ℕ) → Fits (unpack c)
unfolding unpack
unpack-Fits c = record {
  wifi-lt = omega arith;
  provisioning-lt = omega arith;
  ota-lt = omega arith;
  usb_ota_epoch-lt = omega arith;
  wifi_epoch-lt = omega arith;
  shell_epoch-lt = omega arith;
  route-lt = omega arith;
}

pub pack-unpack : (c : ℕ) → c < 2 ^ 32 → pack (unpack c) ≡ c
unfolding pack unpack
pack-unpack c h = omega (
  arith,
  digit-test (c % 2) (omega arith),
  digit-test (c / 2 ^ 7 % 2) (omega arith),
  digit-test (c / 2 ^ 24 % 2) (omega arith),
  h,
)

test-digit : (b : Bool) → (digit b == 1) ≡ b
test-digit true = refl
test-digit false = refl

-- All the bounds at once.
pub bounds :
    (v : Modes)
    → Fits v
    → (digit v.usb < 2)
      × (digit v.ready < 2)
      × (digit v.shell < 2)
      × (v.wifi < 4)
      × (v.provisioning < 4)
      × (v.ota < 4)
      × (v.usb_ota_epoch < 256)
      × (v.wifi_epoch < 256)
      × (v.shell_epoch < 32)
      × (v.route < 4)
bounds v ok = (
  digit-lt v.usb,
  digit-lt v.ready,
  digit-lt v.shell,
  ok.wifi-lt,
  ok.provisioning-lt,
  ok.ota-lt,
  ok.usb_ota_epoch-lt,
  ok.wifi_epoch-lt,
  ok.shell_epoch-lt,
  ok.route-lt,
)

-- The fields of a packed word are those packed.
module _ (v : Modes) (ok : Fits v) where
  usb_of : (pack v % 2 == 1) ≡ v.usb
  unfolding pack
  usb_of = ap (λ (t : ℕ). t == 1) number ∙ test-digit v.usb
    where
      number : pack v % 2 ≡ digit v.usb
      number = omega (arith, bounds v ok)

  wifi_of : pack v / 2 ^ 1 % 4 ≡ v.wifi
  unfolding pack
  wifi_of = omega (arith, bounds v ok)

  provisioning_of : pack v / 2 ^ 3 % 4 ≡ v.provisioning
  unfolding pack
  provisioning_of = omega (arith, bounds v ok)

  ota_of : pack v / 2 ^ 5 % 4 ≡ v.ota
  unfolding pack
  ota_of = omega (arith, bounds v ok)

  ready_of : (pack v / 2 ^ 7 % 2 == 1) ≡ v.ready
  unfolding pack
  ready_of = ap (λ (t : ℕ). t == 1) number ∙ test-digit v.ready
    where
      number : pack v / 2 ^ 7 % 2 ≡ digit v.ready
      number = omega (arith, bounds v ok)

  usb_ota_epoch_of : pack v / 2 ^ 8 % 256 ≡ v.usb_ota_epoch
  unfolding pack
  usb_ota_epoch_of = omega (arith, bounds v ok)

  wifi_epoch_of : pack v / 2 ^ 16 % 256 ≡ v.wifi_epoch
  unfolding pack
  wifi_epoch_of = omega (arith, bounds v ok)

  shell_of : (pack v / 2 ^ 24 % 2 == 1) ≡ v.shell
  unfolding pack
  shell_of = ap (λ (t : ℕ). t == 1) number ∙ test-digit v.shell
    where
      number : pack v / 2 ^ 24 % 2 ≡ digit v.shell
      number = omega (arith, bounds v ok)

  shell_epoch_of : pack v / 2 ^ 25 % 32 ≡ v.shell_epoch
  unfolding pack
  shell_epoch_of = omega (arith, bounds v ok)

  route_of : pack v / 2 ^ 30 % 4 ≡ v.route
  unfolding pack
  route_of = omega (arith, bounds v ok)

  pub unpack-pack : unpack (pack v) ≡ v
  unfolding unpack
  unpack-pack = λ i. record {
    usb = usb_of i;
    wifi = wifi_of i;
    provisioning = provisioning_of i;
    ota = ota_of i;
    ready = ready_of i;
    usb_ota_epoch = usb_ota_epoch_of i;
    wifi_epoch = wifi_epoch_of i;
    shell = shell_of i;
    shell_epoch = shell_epoch_of i;
    route = route_of i;
  }

  pub pack-lt : pack v < 2 ^ 32
  unfolding pack
  pack-lt = omega (arith, bounds v ok)
