-- ===== src/Cpu/Execute/Rotate.antt =====
-- The rotations of `execute8080` (cpu/execute.go): RLC, RRC, RAL and RAR.
use retronet.Base.{
  ℕ, ◌+◌, ◌*◌, ◌/◌, ◌%◌, ◌<◌, ◌≡◌, refl, arith, Bool, true, false, not, ◌==◌, bit_and, bit_or, shl8,
  shr, all_below, agree_below,
}
use retronet.Cpu.State.{Cpu8080}
use retronet.Cpu.Execute.{
  bool_byte, rotate_left, rotate_right, rotate_left_through, rotate_right_through,
}

-- The accumulator with the carry above it, as a number of nine bits.
abbrev pub nine_bits : Cpu8080 → ℕ
nine_bits s = bool_byte s.carry * 256 + s.a

left_byte :
    (a : ℕ)
    → a < 256
    → bit_or (shl8 a 1) (bool_byte (not (bit_and a 0x80 == 0))) ≡ a * 2 % 256 + a / 128
unfolding all_below bool_byte
left_byte = agree_below 256 _ _ refl

right_byte :
    (a : ℕ)
    → a < 256
    → bit_or (shr a 1) (shl8 (bool_byte (not (bit_and a 0x01 == 0))) 7) ≡ a / 2 + a % 2 * 128
unfolding all_below bool_byte
right_byte = agree_below 256 _ _ refl

high_bit : (a : ℕ) → a < 256 → bool_byte (not (bit_and a 0x80 == 0)) ≡ a / 128
unfolding all_below bool_byte
high_bit = agree_below 256 _ _ refl

low_bit : (a : ℕ) → a < 256 → bool_byte (not (bit_and a 0x01 == 0)) ≡ a % 2
unfolding all_below bool_byte
low_bit = agree_below 256 _ _ refl

shifted_left :
    (a : ℕ) (cy : Bool) → a < 256 → bit_or (shl8 a 1) (bool_byte cy) ≡ a * 2 % 256 + bool_byte cy
unfolding all_below bool_byte
shifted_left a true = agree_below 256 (λ a. bit_or (shl8 a 1) 1) (λ a. a * 2 % 256 + 1) refl a
shifted_left a false = agree_below 256 (λ a. bit_or (shl8 a 1) 0) (λ a. a * 2 % 256 + 0) refl a

shifted_right :
    (a : ℕ) (cy : Bool)
    → a < 256
    → bit_or (shr a 1) (shl8 (bool_byte cy) 7) ≡ a / 2 + bool_byte cy * 128
unfolding all_below bool_byte
shifted_right a true =
    agree_below 256 (λ a. bit_or (shr a 1) (shl8 1 7)) (λ a. a / 2 + 1 * 128) refl a
shifted_right a false =
    agree_below 256 (λ a. bit_or (shr a 1) (shl8 0 7)) (λ a. a / 2 + 0 * 128) refl a

bool_byte-lt : (b : Bool) → bool_byte b < 2
unfolding bool_byte
bool_byte-lt b = ground arith

bool_byte_injective : (b c : Bool) → bool_byte b ≡ bool_byte c → b ≡ c
unfolding bool_byte
bool_byte_injective b c h = ground arith

-- The results of the four rotations, in arithmetic.
pub record IsRotated (s : Cpu8080) : Type 0 where
  pub left : (rotate_left s).a ≡ s.a * 2 % 256 + s.a / 128
  pub left_carry : bool_byte (rotate_left s).carry ≡ s.a / 128
  pub right : (rotate_right s).a ≡ s.a / 2 + s.a % 2 * 128
  pub right_carry : bool_byte (rotate_right s).carry ≡ s.a % 2
  pub left_through : nine_bits (rotate_left_through s) ≡ nine_bits s * 2 % 512 + nine_bits s / 256
  pub right_through : nine_bits (rotate_right_through s) ≡ nine_bits s / 2 + nine_bits s % 2 * 256

-- On a byte, RLC and RRC rotate the eight bits, with the bit that comes around in the carry, and RAL
-- and RAR rotate the nine bits of the carry and the accumulator.
rotations_lem : (s : Cpu8080) → s.a < 256 → IsRotated s
unfolding rotate_left rotate_right rotate_left_through rotate_right_through
rotations_lem s h =
    let bit = bool_byte-lt s.carry in
    let down = low_bit s.a h in
    let up = high_bit s.a h in
    record {
      left = left_byte s.a h;
      left_carry = up;
      right = right_byte s.a h;
      right_carry = down;
      left_through = rw (up, shifted_left s.a s.carry h) (omega arith);
      right_through = rw (down, shifted_right s.a s.carry h) (omega arith);
    }

abbrev left_then_right : (cy : Bool) → (ℕ → ℕ) × (ℕ → ℕ)
left_then_right cy = (
  λ a.
      bit_or (shr (bit_or (shl8 a 1) (bool_byte cy)) 1)
        (shl8 (bool_byte (not (bit_and a 0x80 == 0))) 7),
  λ a. bool_byte (not (bit_and (bit_or (shl8 a 1) (bool_byte cy)) 0x01 == 0)),
)

abbrev right_then_left : (cy : Bool) → (ℕ → ℕ) × (ℕ → ℕ)
right_then_left cy = (
  λ a.
      bit_or (shl8 (bit_or (shr a 1) (shl8 (bool_byte cy) 7)) 1)
        (bool_byte (not (bit_and a 0x01 == 0))),
  λ a. bool_byte (not (bit_and (bit_or (shr a 1) (shl8 (bool_byte cy) 7)) 0x80 == 0)),
)

left_then_right_lem :
    (cy : Bool) (a : ℕ)
    → a < 256
    → ((left_then_right cy).0 a ≡ a) × ((left_then_right cy).1 a ≡ bool_byte cy)
unfolding all_below bool_byte
left_then_right_lem true a h = (
  agree_below 256 (left_then_right true).0 (λ a. a) refl a h,
  agree_below 256 (left_then_right true).1 (λ a. 1) refl a h,
)
left_then_right_lem false a h = (
  agree_below 256 (left_then_right false).0 (λ a. a) refl a h,
  agree_below 256 (left_then_right false).1 (λ a. 0) refl a h,
)

right_then_left_lem :
    (cy : Bool) (a : ℕ)
    → a < 256
    → ((right_then_left cy).0 a ≡ a) × ((right_then_left cy).1 a ≡ bool_byte cy)
unfolding all_below bool_byte
right_then_left_lem true a h = (
  agree_below 256 (right_then_left true).0 (λ a. a) refl a h,
  agree_below 256 (right_then_left true).1 (λ a. 1) refl a h,
)
right_then_left_lem false a h = (
  agree_below 256 (right_then_left false).0 (λ a. a) refl a h,
  agree_below 256 (right_then_left false).1 (λ a. 0) refl a h,
)

-- RAR behind RAL, and RAL behind RAR, give the state back, when the accumulator is a byte.
rotations_inverse :
    (s : Cpu8080)
    → s.a < 256
    → (rotate_right_through (rotate_left_through s) ≡ s)
      × (rotate_left_through (rotate_right_through s) ≡ s)
unfolding rotate_left_through rotate_right_through
rotations_inverse s h =
    let (a, cy) = left_then_right_lem s.carry s.a h in
    let (b, dy) = right_then_left_lem s.carry s.a h in
    (rw (a, bool_byte_injective _ _ cy) refl, rw (b, bool_byte_injective _ _ dy) refl)
