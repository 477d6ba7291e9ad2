-- ===== src/Creds/Capset.antt =====
-- kernel/src/security/mod.rs: the capability sets.
use cyphera_kernel.Prelude.{
  ℕ, ◌-◌, ◌^◌, ◌≤◌, ◌<◌, bit_and, bit_or, bit_xor, ◌≡◌, Bool, false, not, ◌&&◌, ◌||◌, arith, ◌==◌,
  if◌then◌else◌, ok, err, perm,
}
use cyphera_kernel.Prelude.Bits.Digits.{
  has_bit, has_bit-bit_and, has_bit-bit_or, has_bit-bit_xor, has_bit-zero, has_bit-ones,
}
use cyphera_kernel.Creds.Credentials.{Credentials, all_caps_mask, cap_last}
use cyphera_kernel.Creds.Setid.{Reply}

-- `!n` of a `u64`
abbrev pub flip : ℕ → ℕ
flip n = bit_xor n (2 ^ 64 - 1)

unfoldable pub capset : ℕ → ℕ → ℕ → Credentials → Reply
capset new_eff new_perm new_inh c =
    if not (bit_and new_perm (flip c.caps_perm) == 0)
    then (c, err perm)
    else if not (bit_and new_eff (flip new_perm) == 0)
    then (c, err perm)
    else if not (bit_and new_inh (flip (bit_or c.caps_inh c.caps_perm)) == 0)
    then (c, err perm)
    else if not (bit_and new_inh (flip (bit_or c.caps_bnd c.caps_inh)) == 0)
    then (c, err perm)
    else (
      record c {
        caps_eff = bit_and new_eff all_caps_mask;
        caps_perm = bit_and new_perm all_caps_mask;
        caps_inh = bit_and new_inh all_caps_mask;
      },
      ok tt,
    )

-- `1u64 << cap`, which panics for a count of 64 or more; the callers pass at most 63.
abbrev pub bit_of : ℕ → ℕ
bit_of cap = 2 ^ cap

unfoldable pub capbset_read : ℕ → Credentials → Bool
capbset_read cap c = not (bit_and c.caps_bnd (bit_of cap) == 0)

unfoldable pub capbset_drop : ℕ → Credentials → Credentials
capbset_drop cap c = record c { caps_bnd = bit_and c.caps_bnd (flip (bit_of cap)) }

-- `a & !b == 0`, digit by digit
pub subset-has_bit :
    (i a b : ℕ) → i < 64 → bit_and a (flip b) ≡ 0 → (has_bit i a && not (has_bit i b)) ≡ false
subset-has_bit i a b h e =
    let digit : has_bit i (bit_and a (flip b)) ≡ false = rw e (has_bit-zero i) in
    ground
      (arith, has_bit-bit_and i a (flip b), has_bit-bit_xor i b (2 ^ 64 - 1), has_bit-ones i 64 h)

-- What the capability `cap` of the three sets may be after `capset`.
pub record IsGranted (cap new_eff new_perm new_inh : ℕ) (c c' : Credentials) : Type 0 where
  pub eff : has_bit cap c'.caps_eff ≡ has_bit cap new_eff
  pub perm : has_bit cap c'.caps_perm ≡ has_bit cap new_perm
  pub inh : has_bit cap c'.caps_inh ≡ has_bit cap new_inh
  pub eff_in_perm : (has_bit cap new_eff && not (has_bit cap new_perm)) ≡ false
  pub perm_not_gained : (has_bit cap new_perm && not (has_bit cap c.caps_perm)) ≡ false
  pub inh_not_gained :
      (has_bit cap new_inh && not (has_bit cap c.caps_inh || has_bit cap c.caps_perm)) ≡ false
  pub inh_in_bnd :
      (has_bit cap new_inh && not (has_bit cap c.caps_bnd || has_bit cap c.caps_inh)) ≡ false

capset_parts :
    (new_eff new_perm new_inh : ℕ) (c c' : Credentials)
    → capset new_eff new_perm new_inh c ≡ (c', ok tt)
    → (bit_and new_perm (flip c.caps_perm) ≡ 0)
      × (bit_and new_eff (flip new_perm) ≡ 0)
      × (bit_and new_inh (flip (bit_or c.caps_inh c.caps_perm)) ≡ 0)
      × (bit_and new_inh (flip (bit_or c.caps_bnd c.caps_inh)) ≡ 0)
      × (c'.caps_eff ≡ bit_and new_eff all_caps_mask)
      × (c'.caps_perm ≡ bit_and new_perm all_caps_mask)
      × (c'.caps_inh ≡ bit_and new_inh all_caps_mask)
unfolding capset
capset_parts new_eff new_perm new_inh c c' e = ground arith

masked :
    (cap n m : ℕ) → cap ≤ cap_last → m ≡ bit_and n all_caps_mask → has_bit cap m ≡ has_bit cap n
masked cap n m h e =
    rw e (ground (arith, has_bit-bit_and cap n all_caps_mask, has_bit-ones cap 41 (omega arith)))

-- Where `capset` succeeds the sets are those asked for, up to the last capability; the effective set
-- is within the permitted one, which gains nothing, and the inheritable set gains only what was
-- permitted, within the bounding set.
pub capset-IsGranted :
    (cap new_eff new_perm new_inh : ℕ) (c c' : Credentials)
    → cap ≤ cap_last
    → capset new_eff new_perm new_inh c ≡ (c', ok tt)
    → IsGranted cap new_eff new_perm new_inh c c'
capset-IsGranted cap new_eff new_perm new_inh c c' h e =
    let (p, q, r, s, eff', perm', inh') = capset_parts new_eff new_perm new_inh c c' e in
    record {
      eff = masked cap new_eff c'.caps_eff h eff';
      perm = masked cap new_perm c'.caps_perm h perm';
      inh = masked cap new_inh c'.caps_inh h inh';
      eff_in_perm = subset-has_bit cap new_eff new_perm (omega arith) q;
      perm_not_gained = subset-has_bit cap new_perm c.caps_perm (omega arith) p;
      inh_not_gained =
          rw (has_bit-bit_or cap c.caps_inh c.caps_perm) at
            (subset-has_bit cap new_inh (bit_or c.caps_inh c.caps_perm) (omega arith) r);
      inh_in_bnd = ground (
        arith,
        has_bit-bit_or cap c.caps_bnd c.caps_inh,
        subset-has_bit cap new_inh (bit_or c.caps_bnd c.caps_inh) (omega arith) s,
      );
    }
