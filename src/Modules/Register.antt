-- ===== src/Modules/Register.antt =====
-- lib/dyld.c: dyld_register keeps the list of modules a map from names to modules.
use flipper.Prelude.{
  ℕ, ◌≡◌, refl, sym, ap, ◌∙◌, List, [], ◌∷◌, ◌++◌, Option, none, some, true, false, arith,
  if◌then◌else◌, ◌==◌, Bool-cases, Option-cases, inl, inr, ◌&&◌,
}
use flipper.Prelude.Bytes.{bytes_eq, bytes_eq_refl, bytes_eq_sym, bytes_eq→eq}
use flipper.Prelude.Outcome.{done}
use flipper.Error.{lf_success, lf_error}
use flipper.Device.{Module, Device, Platform}
use flipper.Modules.{find, assign_index, node_size, dyld_register}

module _ {E : Type 0} where
  -- No two modules have the same name.
  abbrev pub Distinct : List (Module E) → Type 0
  Distinct [] = Unit {0}
  Distinct (m ∷ ms) = (find m.name ms ≡ none) × Distinct ms

  pub find-append_new :
      (n : List ℕ) (ms : List (Module E)) (m : Module E)
      → find n ms ≡ none
      → find n (ms ++ m ∷ []) ≡ find n (m ∷ [])
  unfolding find
  find-append_new n [] m h = refl
  find-append_new n (x ∷ xs) m h = elim (Bool-cases (bytes_eq x.name n)) [
    | inl same ↦ let h' : some x ≡ none = rw same at h in cc
    | inr other ↦ rw other (find-append_new n xs m (rw other at h))
  ]

  find-append_other :
      (n : List ℕ) (ms : List (Module E)) (m : Module E)
      → bytes_eq m.name n ≡ false
      → find n (ms ++ m ∷ []) ≡ find n ms
  unfolding find
  find-append_other n [] m h = rw h refl
  find-append_other n (x ∷ xs) m h = elim (Bool-cases (bytes_eq x.name n)) [
    | inl same ↦ rw same refl
    | inr other ↦ rw other (find-append_other n xs m h)
  ]

  pub find_self : (m : Module E) → find m.name (m ∷ []) ≡ some m
  unfolding find
  find_self m = rw (bytes_eq_refl m.name) refl

  Distinct-append :
      (ms : List (Module E)) (m : Module E)
      → find m.name ms ≡ none
      → Distinct ms
      → Distinct (ms ++ m ∷ [])
  unfolding find
  Distinct-append [] m h ds = (refl, tt)
  Distinct-append (x ∷ xs) m h (new, ds) = elim (Bool-cases (bytes_eq x.name m.name)) [
    | inl same ↦ let h' : some x ≡ none = rw same at h in cc
    | inr other ↦
        let differ = bytes_eq_sym m.name x.name ∙ other in
        (find-append_other x.name xs m differ ∙ new, Distinct-append xs m (rw other at h) ds)
  ]

  assign_index-name : (m : Module E) (ms : List (Module E)) → (assign_index m ms).name ≡ m.name
  unfolding assign_index
  assign_index-name m ms = ground arith

  abbrev pub or_else : Option (Module E) → Option (Module E) → Option (Module E)
  or_else (some m) other = some m
  or_else none other = other

  -- what a name stands for behind a registration of `m'` with the status
  abbrev pub lookup : (status : ℕ) → (m' : Module E) → List (Module E) → List ℕ → Option (Module E)
  lookup status m' ms n =
      or_else (find n ms) (if (status == lf_success) && bytes_eq m'.name n then some m' else none)

  -- What a registration leaves: `m'` is the module as the call leaves it.
  pub record Registered (p : Platform E) (m : Module E) (d : Device E) : Type 0 where
    pub status : ℕ
    pub m' : Module E
    pub d' : Device E
    pub run : dyld_register p true (some m) d ≡ done (status, some m') d'
    pub name : m'.name ≡ m.name
    pub stands_for : (n : List ℕ) → find n d'.modules ≡ lookup status m' d.modules n
    pub distinct : Distinct d.modules → Distinct d'.modules

  lookup_append :
      (n : List ℕ) (ms : List (Module E)) (m : Module E)
      → find n (ms ++ m ∷ []) ≡ lookup lf_success m ms n
  unfolding find
  lookup_append n [] m = refl
  lookup_append n (x ∷ xs) m = elim (Bool-cases (bytes_eq x.name n)) [
    | inl same ↦ rw same refl
    | inr other ↦ rw other (lookup_append n xs m)
  ]

  lookup_same :
      (n : List ℕ) (ms : List (Module E)) (m : Module E) → find n ms ≡ lookup lf_error m ms n
  lookup_same n ms m = elim (Option-cases (find n ms)) [
    | inl e ↦ rw e refl
    | inr (x, e) ↦ rw e refl
  ]

  lookup_known :
      (n : List ℕ) (ms : List (Module E)) (m found : Module E)
      → find m.name ms ≡ some found
      → find n ms ≡ lookup lf_success m ms n
  lookup_known n ms m found h = elim (Bool-cases (bytes_eq m.name n)) [
    | inl same ↦
        let here : find n ms ≡ some found =
          ap (λ k. find k ms) (sym (bytes_eq→eq m.name n same)) ∙ h in
        rw here refl
    | inr other ↦ rw other (lookup_same n ms m)
  ]

  module _ (p : Platform E) (m : Module E) (d : Device E) where
    known : (found : Module E) → find m.name d.modules ≡ some found → Registered p m d
    unfolding dyld_register
    known found h = record {
      status = lf_success;
      m' = m;
      d' = d;
      run = rw (h, dyld_register) refl;
      name = refl;
      stands_for = λ n. lookup_known n d.modules m found h;
      distinct = λ ds. ds;
    }

    exhausted :
        find m.name d.modules ≡ none → ((p.malloc node_size d.env).0 == 0) ≡ true → Registered p m d
    unfolding dyld_register
    exhausted new full = record {
      status = lf_error;
      m' = assign_index m d.modules;
      d' = record d { env = (p.malloc node_size d.env).1 };
      run = rw (new, full, dyld_register) refl;
      name = assign_index-name m d.modules;
      stands_for = λ n. lookup_same n d.modules (assign_index m d.modules);
      distinct = λ ds. ds;
    }

    added :
        find m.name d.modules ≡ none
        → ((p.malloc node_size d.env).0 == 0) ≡ false
        → Registered p m d
    unfolding dyld_register
    added new ok =
        let m' = assign_index m d.modules in
        record {
          status = lf_success;
          m' = m';
          d' = record d { modules = d.modules ++ m' ∷ []; env = (p.malloc node_size d.env).1 };
          run = rw (new, ok, dyld_register) refl;
          name = assign_index-name m d.modules;
          stands_for = λ n. lookup_append n d.modules m';
          distinct = λ ds. Distinct-append d.modules m' (rw (assign_index-name m d.modules) new) ds;
        }

    pub registered : Registered p m d
    registered = elim (Option-cases (find m.name d.modules)) [
      | inl new ↦ elim (Bool-cases ((p.malloc node_size d.env).0 == 0)) [
        | inl full ↦ exhausted new full
        | inr ok ↦ added new ok
      ]
      | inr (found, h) ↦ known found h
    ]

    -- A registration of a module ends without a fault. Each name then stands for the module that it stood for
    -- before; if it stood for none, it is the name of the module and the status is `lf_success`, for that
    -- module, and else for none.
    pub dyld_register-lookup :
        (status : ℕ) × (m' : Module E) × (d' : Device E) × (dyld_register p true (some m) d
          ≡ done (status, some m') d')
        × (m'.name ≡ m.name)
        × ((n : List ℕ) → find n d'.modules ≡ lookup status m' d.modules n)
    dyld_register-lookup = let r = registered in (r.status, r.m', r.d', r.run, r.name, r.stands_for)

    -- If no two modules of a device have the same name, that is so after a registration too, whatever its
    -- status.
    dyld_register-Distinct :
        Distinct d.modules
        → (r : ℕ × Option (Module E)) × (d' : Device E) × (dyld_register p true (some m) d
            ≡ done r d')
          × Distinct d'.modules
    dyld_register-Distinct ds =
        let r = registered in ((r.status, some r.m'), r.d', r.run, r.distinct ds)
