-- ===== src/Dyld/Adopt.antt =====
-- lib/dyld.c: dyld_module, for a module that the device has and the host does not know yet.
use flipper.Prelude.{
  ℕ, zero, suc, ◌≤◌, ◌<◌, ◌≡◌, refl, ap, ◌∙◌, ◌≢◌, List, [], ◌∷◌, ◌++◌, none, some, true, false,
  length, take, arith, ltb, ◌==◌,
}
use flipper.Prelude.Outcome.{done}
use flipper.Error.{lf_success}
use flipper.Device.{Module, Device, Platform, name_max, no_index}
use flipper.Device.Create.{lf_module_create}
use flipper.Modules.{find, assign_index, node_size, dyld_register}
use flipper.Modules.Register.{find-append_new, find_self}
use flipper.Dyld.{lf_dyld_dyn_sym_lookup, adopt, dyld_module}

take-all : (n : ℕ) (xs : List ℕ) → length xs ≤ n → take n xs ≡ xs
take-all zero [] h = refl
take-all zero (x ∷ xs) h = absurd (omega arith)
take-all (suc n) [] h = refl
take-all (suc n) (x ∷ xs) h = ap (λ t. x ∷ t) (take-all n xs (omega arith))

module _ {E : Type 0} (p : Platform E) where
  -- the module that is made of a name and an index
  abbrev bare : List ℕ → ℕ → Module E
  bare name i = record { name = name; version = 0; idx = i; table = []; length = 0; state = none }

  assign_index-own :
      (m : Module E) (ms : List (Module E)) → m.idx ≢ no_index → assign_index m ms ≡ m
  unfolding assign_index
  assign_index-own m ms ne =
      let own : (m.idx == no_index) ≡ false = ground arith in rw (own, assign_index) refl

  -- the registration of a module whose name is not there yet
  registers :
      (m : Module E) (d : Device E) (node : ℕ) (e3 : E)
      → find m.name d.modules ≡ none
      → m.idx ≢ no_index
      → p.malloc node_size d.env ≡ (suc node, e3)
      → dyld_register p true (some m) d
        ≡ done (lf_success, some m) (record d { modules = d.modules ++ m ∷ []; env = e3 })
  unfolding dyld_register
  registers m d node e3 still own given =
      let linked : (suc node == 0) ≡ false = ground arith in
      rw (still, given, linked, assign_index-own m d.modules own, dyld_register) refl

  known :
      (size : ℕ) (name : List ℕ) (m : Module E) (d : Device E)
      → find name d.modules ≡ some m
      → dyld_module p size true (some name) d ≡ done (some m) d
  unfolding dyld_module
  known size name m d h = rw (h, dyld_module) refl

  -- Let a module be unknown on the host before and behind a lookup of its name, of less than 32 bytes, that gives an index other than
  -- 65535, and let memory for the module and for a node of the list be given. Then dyld_module gives a module with that name and
  -- index and appends it to the list, and a second call gives the same module and changes nothing.
  pub dyld_module-twice :
      (size i at node : ℕ) (name : List ℕ) (d d1 : Device E) (e2 e3 : E)
      → find name d.modules ≡ none
      → lf_dyld_dyn_sym_lookup p true (some name) d ≡ done (some i) d1
      → find name d1.modules ≡ none
      → length name < name_max
      → i ≢ no_index
      → p.malloc size d1.env ≡ (suc at, e2)
      → p.malloc node_size e2 ≡ (suc node, e3)
      → (m : Module E) × (d' : Device E) × (dyld_module p size true (some name) d
          ≡ done (some m) d')
        × (m.name ≡ name)
        × (m.idx ≡ i)
        × (d'.modules ≡ d1.modules ++ m ∷ [])
        × (dyld_module p size true (some name) d' ≡ done (some m) d')
  unfolding dyld_module adopt lf_module_create
  dyld_module-twice size i at node name d d1 e2 e3 new looked still short own given given' =
      let m = bare name i in
      let cut = bare (take 31 name) i in
      let d2 : Device E = record d1 { env = e2 } in
      let d' : Device E = record d1 { modules = d1.modules ++ m ∷ []; env = e3 } in
      let fits : ltb (length name) name_max ≡ true = ground arith in
      let whole : take 31 name ≡ name = take-all 31 name (omega arith) in
      let allocated : (suc at == 0) ≡ false = ground arith in
      let unknown : find (take 31 name) d1.modules ≡ none =
        ap (λ t. find t d1.modules) whole ∙ still in
      let found : find name d'.modules ≡ some m =
        find-append_new name d1.modules m still ∙ find_self m in
      (
        m,
        d',
        rw
            (
              new,
              looked,
              fits,
              given,
              allocated,
              registers cut d2 node e3 unknown own given',
              dyld_module,
              adopt,
              lf_module_create,
            )
            (ap
              (λ t.
                done (some (bare t i))
                  (record d1 { modules = d1.modules ++ bare t i ∷ []; env = e3 }))
              whole),
        refl,
        refl,
        refl,
        known size name m d' found,
      )
