-- ===== src/Creds/Reach.antt =====
-- kernel/src/security/setid.rs and kernel/src/security/mod.rs: the credentials that a process can
-- reach from those of root, whatever it does to them.
use cyphera_kernel.Prelude.{
  ℕ, ◌≤◌, ◌<◌, bit_and, bit_or, ◌≡◌, refl, ◌⊎◌, inl, inr, Bool, true, false, not, ◌&&◌, ◌||◌, List,
  Option, none, some, arith, ◌==◌, if◌then◌else◌, if_cases, ok, err, perm, inval, subst, sym,
}
use cyphera_kernel.Prelude.Bits.Digits.{has_bit, has_bit-zero, bit_and-pow}
use cyphera_kernel.Creds.Namespace.{UserNamespace}
use cyphera_kernel.Creds.Credentials.{
  Credentials, root, cap_last, cap_audit_control, all_caps_mask, has_cap,
}
use cyphera_kernel.Creds.Setid.{Reply}
use cyphera_kernel.Creds.Setid.Cases.{SetidCall, call}
use cyphera_kernel.Creds.Setid.Capabilities.{CapsAfter, call-IsSafe}
use cyphera_kernel.Creds.Exec.{
  ExecCredTransition, take_owners, apply_exec_transition, kernel_groups, set_supplementary_groups,
  clear_supplementary_groups, enter_user_namespace, set_loginuid,
}
use cyphera_kernel.Creds.Capset.{capset, capset-IsGranted, capbset_drop, flip}

-- whatever changes the credentials of a process
pub data Step (c c' : Credentials) : Type 0 where
  calls : (keep_caps : Bool) (s : SetidCall) → c' ≡ (call keep_caps s c).0 → Step c c'
  sets_caps : (eff permitted inh : ℕ) → c' ≡ (capset eff permitted inh c).0 → Step c c'
  drops_bound : (cap : ℕ) → cap < 64 → c' ≡ capbset_drop cap c → Step c c'
  execs : (t : ExecCredTransition) → c' ≡ apply_exec_transition t c → Step c c'
  sets_groups : (gids : List ℕ) → c' ≡ (set_supplementary_groups gids c).0 → Step c c'
  clears_groups : c' ≡ clear_supplementary_groups c → Step c c'
  enters : (ns : UserNamespace) → c' ≡ enter_user_namespace ns c → Step c c'
  logs_in : (val : ℕ) → c' ≡ (set_loginuid val c).0 → Step c c'

pub data Reach : Credentials → Type 0 where
  booted : Reach root
  next : {c c' : Credentials} → Reach c → Step c c' → Reach c'

-- the capability is effective only where it is permitted
abbrev pub IsWithin : ℕ → ℕ → ℕ → Type 0
IsWithin cap eff permitted = (has_bit cap eff && not (has_bit cap permitted)) ≡ false

abbrev IsGrantOrRefusal : Credentials → Reply → Type 0
IsGrantOrRefusal c r = ((c' : Credentials) × (r ≡ (c', ok tt))) ⊎ (r ≡ (c, err perm))

capset-cases :
    (eff permitted inh : ℕ) (c : Credentials) → IsGrantOrRefusal c (capset eff permitted inh c)
unfolding capset
capset-cases eff permitted inh c =
    let P : Reply → Type 0 = IsGrantOrRefusal c in
    if_cases {A = Reply} P (not (bit_and permitted (flip c.caps_perm) == 0)) (λ _. inr refl)
      (λ _.
        if_cases {A = Reply} P (not (bit_and eff (flip permitted) == 0)) (λ _. inr refl)
          (λ _.
            if_cases {A = Reply} P (not (bit_and inh (flip (bit_or c.caps_inh c.caps_perm)) == 0))
              (λ _. inr refl)
              (λ _.
                if_cases {A = Reply} P
                  (not (bit_and inh (flip (bit_or c.caps_bnd c.caps_inh)) == 0)) (λ _. inr refl)
                  (λ _. inl (_, refl)))))

module _ (cap : ℕ) (known : cap ≤ cap_last) where
  abbrev Fine : Credentials → Type 0
  Fine c = IsWithin cap c.caps_eff c.caps_perm

  none-IsWithin : (permitted : ℕ) → IsWithin cap 0 permitted
  none-IsWithin permitted = ground (arith, has_bit-zero cap)

  all-IsWithin : (set : ℕ) → IsWithin cap set set
  all-IsWithin set = ground arith

  after_caps :
      (euid eff permitted inh bnd : ℕ) (c' : Credentials)
      → CapsAfter euid eff permitted inh bnd c'
      → IsWithin cap eff permitted
      → Fine c'
  after_caps euid eff permitted inh bnd c' h w = elim h.after [
    | inl (e, p) ↦ rw e (none-IsWithin c'.caps_perm)
    | inr (inl (e, p)) ↦ rw e (none-IsWithin c'.caps_perm)
    | inr (inr (inl (e, p))) ↦ rw (e, p) w
    | inr (inr (inr (e, p, _, _))) ↦ rw (e, p) (all-IsWithin permitted)
  ]

  capset-Fine :
      (eff permitted inh : ℕ) (c : Credentials) → Fine c → Fine (capset eff permitted inh c).0
  capset-Fine eff permitted inh c w = elim (capset-cases eff permitted inh c) [
    | inl (c', e) ↦
        let g = capset-IsGranted cap eff permitted inh c c' known e in
        subst (λ r. Fine (r.0)) (sym e) (ground (arith, g.eff, g.perm, g.eff_in_perm))
    | inr e ↦ subst (λ r. Fine (r.0)) (sym e) w
  ]

  exec-Fine : (t : ExecCredTransition) (c : Credentials) → Fine (apply_exec_transition t c)
  unfolding apply_exec_transition
  exec-Fine t c =
      let c' = take_owners t.suid_owner t.sgid_owner c in
      let permitted = if c'.euid == 0 || c'.ruid == 0 then bit_or c'.caps_bnd c'.caps_inh else 0 in
      if_cases {A = ℕ} (λ e. IsWithin cap e permitted) (c'.euid == 0) (λ _. all-IsWithin permitted)
        (λ _. none-IsWithin permitted)

  groups_same :
      (c : Credentials) (gs : Option (List ℕ))
      → Fine c
      → Fine
          (elim gs as (λ _. Reply) [
            | none ↦ (c, err inval)
            | some ks ↦ (record c { groups = ks }, ok tt)
          ]).0
  groups_same c none w = w
  groups_same c (some ks) w = w

  Step-Fine : (c c' : Credentials) → Step c c' → Fine c → Fine c'
  unfolding set_supplementary_groups clear_supplementary_groups enter_user_namespace set_loginuid
      capbset_drop
  Step-Fine c c' (calls keep_caps s e) w = subst Fine (sym e) (
      after_caps c.euid c.caps_eff c.caps_perm c.caps_inh c.caps_bnd _
        (call-IsSafe keep_caps s c).caps w)
  Step-Fine c c' (sets_caps eff permitted inh e) w =
      subst Fine (sym e) (capset-Fine eff permitted inh c w)
  Step-Fine c c' (drops_bound b le e) w = subst Fine (sym e) w
  Step-Fine c c' (execs t e) w = subst Fine (sym e) (exec-Fine t c)
  Step-Fine c c' (sets_groups gids e) w =
      subst Fine (sym e) (groups_same c (kernel_groups c gids) w)
  Step-Fine c c' (clears_groups e) w = subst Fine (sym e) w
  Step-Fine c c' (enters ns e) w = subst Fine (sym e) (all-IsWithin all_caps_mask)
  Step-Fine c c' (logs_in val e) w = subst Fine (sym e) (
      if_cases {A = Credentials × Bool} (λ r. Fine (r.0)) (has_cap cap_audit_control c) (λ _. w)
        (λ _. w))

  root-Fine : Fine root
  unfolding root
  root-Fine = all-IsWithin all_caps_mask

reachable-IsWithin :
    (cap : ℕ) {c : Credentials} → cap ≤ cap_last → Reach c → IsWithin cap c.caps_eff c.caps_perm
reachable-IsWithin cap known booted = root-Fine cap known
reachable-IsWithin cap known (next r st) =
    Step-Fine cap known _ _ st (reachable-IsWithin cap known r)

has_cap-has_bit :
    (cap : ℕ) (c : Credentials)
    → has_cap cap c ≡ true
    → (cap ≤ cap_last) × (has_bit cap c.caps_eff ≡ true)
unfolding has_cap
has_cap-has_bit cap c h = ground (arith, bit_and-pow cap c.caps_eff)

-- Whatever a process calls, executes or enters on its way from root's credentials, a capability that
-- it has is in its permitted set.
pub reachable_permitted :
    (cap : ℕ) {c : Credentials} → Reach c → has_cap cap c ≡ true → has_bit cap c.caps_perm ≡ true
reachable_permitted cap {c} r h =
    let (known, there) = has_cap-has_bit cap c h in ground (arith, reachable-IsWithin cap known r)
