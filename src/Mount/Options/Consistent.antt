-- ===== src/Mount/Options/Consistent.antt =====
-- What holds of the options that exclude each other while src/mount/options.rs reads them.
use fuji.Base.{
  ◌≡◌, refl, sym, subst, ◌⊎◌, inl, inr, String, Bool, true, false, Option, none, some, List, [],
  ◌∷◌, arith, eq_iff, str_eq, Bool-cases, Result, ok, err, Holds, bind-Holds, ok_or-Holds, Dict,
  get, insert, contains_key, get-insert,
}
use fuji.Mount.Options.{Parsed}
use fuji.Mount.Options.Text.{is_empty, split_once, parse_u32, parse_mode, parse_size}
use fuji.Mount.Options.Process.{
  SecurityKey, uid_key, gid_key, file_mode_key, dir_mode_key, other_security, PerformanceKey,
  rsize_key, wsize_key, timeo_key, retrans_key, nfsvers_key, vers_key, other_performance, Flag, ro,
  rw_flag, nosuid_flag, nodev_flag, noexec_flag, suid_flag, soft_flag, hard, intr_flag, nointr,
  other_flag, security_key, performance_key, flag_of, store, security_option, performance_option,
  process_key_value_option, set_flag, process_boolean_option,
}
use fuji.Mount.Options.Parse.{process_option, process_all}

pub contains_key-insert :
    (k j : String) (v : String) (m : Dict String)
    → contains_key j m ≡ true
    → contains_key j (insert k v m) ≡ true
contains_key-insert k j v m h = ground (arith, get-insert k j v m, h)

-- At most one of two options.
abbrev pub NotBoth : Bool → Bool → Type 0
NotBoth a b = (a ≡ false) ⊎ (b ≡ false)

-- What holds while the options are read.
pub record Consistent (p : Parsed) : Type 0 where
  pub asked : (p.security.read_only ≡ false) ⊎ (contains_key "ro" p.options ≡ true)
  pub exclusive : NotBoth p.security.suid p.security.nosuid

pub store-Consistent : (k v : String) (p : Parsed) → Consistent p → Consistent (store k v p)
store-Consistent k v p h = record {
  asked = elim h.asked [ inl e ↦ inl e | inr e ↦ inr (contains_key-insert k "ro" v p.options e) ];
  exclusive = h.exclusive;
}

-- A change of other fields.
pub frame-Consistent :
    (p q : Parsed)
    → q.options ≡ p.options
    → q.security.read_only ≡ p.security.read_only
    → q.security.suid ≡ p.security.suid
    → q.security.nosuid ≡ p.security.nosuid
    → Consistent p
    → Consistent q
frame-Consistent p q e f g k h = record {
  asked = rw (e, f) h.asked;
  exclusive = rw (g, k) h.exclusive;
}

security_option-Consistent :
    (s : SecurityKey) (key value : String) (p : Parsed)
    → Consistent p
    → Holds Consistent (security_option s key value p)
unfolding security_option
security_option-Consistent uid_key key value p h =
    ok_or-Holds Consistent (parse_u32 value) _ _ (λ n. frame-Consistent p _ refl refl refl refl h)
security_option-Consistent gid_key key value p h =
    ok_or-Holds Consistent (parse_u32 value) _ _ (λ n. frame-Consistent p _ refl refl refl refl h)
security_option-Consistent file_mode_key key value p h =
    ok_or-Holds Consistent (parse_mode value) _ _ (λ n. frame-Consistent p _ refl refl refl refl h)
security_option-Consistent dir_mode_key key value p h =
    ok_or-Holds Consistent (parse_mode value) _ _ (λ n. frame-Consistent p _ refl refl refl refl h)
security_option-Consistent other_security key value p h = store-Consistent key value p h

any_size : {E : Type 0} {A : Type 0} (r : Result E A) → Holds (λ a. Unit {0}) r
any_size (ok a) = tt
any_size (err e) = tt

performance_option-Consistent :
    (k : PerformanceKey) (key value : String) (p : Parsed)
    → Consistent p
    → Holds Consistent (performance_option k key value p)
unfolding performance_option
performance_option-Consistent rsize_key key value p h =
    bind-Holds (λ n. Unit {0}) Consistent (parse_size value) _ (any_size (parse_size value))
      (λ n u. store-Consistent key _ _ (frame-Consistent p _ refl refl refl refl h))
performance_option-Consistent wsize_key key value p h =
    bind-Holds (λ n. Unit {0}) Consistent (parse_size value) _ (any_size (parse_size value))
      (λ n u. store-Consistent key _ _ (frame-Consistent p _ refl refl refl refl h))
performance_option-Consistent timeo_key key value p h =
    ok_or-Holds Consistent (parse_u32 value) _ _ (λ n. frame-Consistent p _ refl refl refl refl h)
performance_option-Consistent retrans_key key value p h =
    ok_or-Holds Consistent (parse_u32 value) _ _ (λ n. frame-Consistent p _ refl refl refl refl h)
performance_option-Consistent nfsvers_key key value p h =
    ok_or-Holds Consistent (parse_u32 value) _ _ (λ n. frame-Consistent p _ refl refl refl refl h)
performance_option-Consistent vers_key key value p h = frame-Consistent p _ refl refl refl refl h
performance_option-Consistent other_performance key value p h = h

key_value-Consistent :
    (key value : String) (p : Parsed)
    → Consistent p
    → Holds Consistent (process_key_value_option key value p)
unfolding process_key_value_option
key_value-Consistent key value p h =
    bind-Holds Consistent Consistent
      (security_option (security_key key) key value (store key value p)) _
      (security_option-Consistent (security_key key) key value _ (store-Consistent key value p h))
      (λ q hq. performance_option-Consistent (performance_key key) key value q hq)

-- The arm for `ro` is reached by `ro` only.
ro_of_flag : (option : String) → flag_of option ≡ ro → option ≡ "ro"
unfolding flag_of get
ro_of_flag option h = elim (Bool-cases (str_eq "ro" option)) [
  | inl e ↦ sym ((eq_iff "ro" option).0 e)
  | inr e ↦ ground (arith, h, e)
]

pub contains_key-insert_self :
    (k : String) (v : String) (m : Dict String) → contains_key k (insert k v m) ≡ true
contains_key-insert_self k v m = ground (arith, get-insert k k v m, eq_iff k k)

set_flag-Consistent :
    (f : Flag) (option : String) (p : Parsed)
    → (f ≡ ro → option ≡ "ro")
    → Consistent p
    → Holds Consistent (set_flag f option p)
unfolding set_flag
set_flag-Consistent ro option p arm h = elim (Bool-cases (contains_key "rw" p.options)) [
  | inl e ↦ rw e tt
  | inr e ↦ rw e (record {
    asked = inr (
        subst (λ k. contains_key "ro" (insert k "" p.options) ≡ true) (sym (arm refl))
          (contains_key-insert_self "ro" "" p.options));
    exclusive = h.exclusive;
  })
]
set_flag-Consistent rw_flag option p arm h = elim (Bool-cases (contains_key "ro" p.options)) [
  | inl e ↦ rw e tt
  | inr e ↦ rw e (record { asked = inl refl; exclusive = h.exclusive })
]
set_flag-Consistent nosuid_flag option p arm h =
    store-Consistent option "" _ (record { asked = h.asked; exclusive = inl refl })
set_flag-Consistent nodev_flag option p arm h =
    store-Consistent option "" _ (frame-Consistent p _ refl refl refl refl h)
set_flag-Consistent noexec_flag option p arm h =
    store-Consistent option "" _ (frame-Consistent p _ refl refl refl refl h)
set_flag-Consistent suid_flag option p arm h =
    store-Consistent option "" _ (record { asked = h.asked; exclusive = inr refl })
set_flag-Consistent soft_flag option p arm h =
    store-Consistent option "" _ (frame-Consistent p _ refl refl refl refl h)
set_flag-Consistent hard option p arm h =
    store-Consistent option "" _ (frame-Consistent p _ refl refl refl refl h)
set_flag-Consistent intr_flag option p arm h =
    store-Consistent option "" _ (frame-Consistent p _ refl refl refl refl h)
set_flag-Consistent nointr option p arm h =
    store-Consistent option "" _ (frame-Consistent p _ refl refl refl refl h)
set_flag-Consistent other_flag option p arm h = store-Consistent option "" p h

process_option-Consistent :
    (opt : String) (p : Parsed) → Consistent p → Holds Consistent (process_option opt p)
unfolding process_option process_boolean_option
process_option-Consistent opt p h = elim (Bool-cases (is_empty opt)) [
  | inl e ↦ rw e h
  | inr e ↦ rw e (by_form (split_once opt))
]
  where
    by_form :
        (o : Option (String × String))
        → Holds Consistent (elim o [
          | some (key, value) ↦ process_key_value_option key value p
          | none ↦ process_boolean_option opt p
        ])
    by_form (some (key, value)) = key_value-Consistent key value p h
    by_form none = set_flag-Consistent (flag_of opt) opt p (ro_of_flag opt) h

pub process_all-Consistent :
    (raw : List String) (p : Parsed) → Consistent p → Holds Consistent (process_all raw p)
unfolding process_all
process_all-Consistent [] p h = h
process_all-Consistent (opt ∷ raw) p h =
    bind-Holds Consistent Consistent (process_option opt p) _ (process_option-Consistent opt p h)
      (λ q hq. process_all-Consistent raw q hq)
