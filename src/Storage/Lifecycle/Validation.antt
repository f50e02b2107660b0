-- ===== src/Storage/Lifecycle/Validation.antt =====
-- validate_config: which configurations are accepted.
use kanek_extents_storage.Common.{
  ℕ, ◌*◌, ◌≤◌, ◌≡◌, refl, ◌⊎◌, inl, inr, Bool, true, not, ◌||◌, ◌==◌, ltb, arith, success, err,
  invalid, checked_below, checked_below_sound, if◌then◌else◌, dec_lt, Bool-cases,
}
use kanek_extents_storage.Storage.Lifecycle.{Config, is_power_of_2, is_first_fit, validate_config}

abbrev is_block_size : ℕ → Bool
is_block_size x = (x == 4096) || (x == 8192) || (x == 16384) || (x == 32768) || (x == 65536)

abbrev agrees : ℕ → Bool
agrees x = if is_power_of_2 x then (ltb x 4096 || is_block_size x) else not (is_block_size x)

sizes_table : checked_below 65537 agrees ≡ true
unfolding checked_below
sizes_table = refl

pub record Accepts (config : Config) : Type 0 where
  pub path : config.has_device_path ≡ true
  pub block_size :
      (config.block_size ≡ 4096)
      ⊎ (config.block_size ≡ 8192)
      ⊎ (config.block_size ≡ 16384)
      ⊎ (config.block_size ≡ 32768)
      ⊎ (config.block_size ≡ 65536)
  pub ten_blocks : 10 * config.block_size ≤ config.device_size
  pub strategy : is_first_fit config.strategy ≡ true

-- In the range of the block sizes, the test for a power of two finds the five of them.
power_of_2 : (x : ℕ) → 4096 ≤ x → x ≤ 65536 → is_power_of_2 x ≡ is_block_size x
power_of_2 x lo hi = ground (arith, checked_below_sound 65537 agrees x sizes_table (omega arith))

-- A configuration is accepted if it has a path, a block size of 4096, 8192, 16384, 32768 or 65536
-- bytes, room for ten blocks of that size, and the first-fit strategy; otherwise validate_config
-- returns KES_ERROR_INVALID.
pub validate_config-Accepts :
    (config : Config)
    → ((validate_config config ≡ success) × Accepts config)
      ⊎ ((validate_config config ≡ err invalid) × ¬ Accepts config)
unfolding validate_config
validate_config-Accepts config = elim (dec_lt config.block_size 4096) [
  | yes lt ↦ inr (ground arith, λ a. ground (arith, a.block_size))
  | no ge ↦ elim (dec_lt 65536 config.block_size) [
    | yes lt ↦ inr (ground arith, λ a. ground (arith, a.block_size))
    | no ge' ↦
        let e : is_power_of_2 config.block_size ≡ is_block_size config.block_size =
          power_of_2 config.block_size (omega arith) (omega arith) in
        elim (Bool-cases (is_block_size config.block_size)) [
          | inr f ↦ inr (ground (arith, e, f), λ a. ground (arith, a.block_size, f))
          | inl t ↦ elim (Bool-cases config.has_device_path) [
            | inr f' ↦ inr (ground (arith, f'), λ a. ground (arith, a.path, f'))
            | inl t' ↦ elim (Bool-cases (is_first_fit config.strategy)) [
              | inr f'' ↦ inr (ground (arith, f''), λ a. ground (arith, a.strategy, f''))
              | inl t'' ↦ elim (dec_lt config.device_size (10 * config.block_size)) [
                | yes few ↦ inr (ground (arith, few), λ a. ground (arith, a.ten_blocks, few))
                | no many ↦ inl (
                  ground (arith, e, t, t', t'', many),
                  record {
                    path = t';
                    block_size = ground (arith, t);
                    ten_blocks = omega arith;
                    strategy = t'';
                  },
                )
              ]
            ]
          ]
        ]
  ]
]
