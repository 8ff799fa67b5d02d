-- ===== src/Fvm/Load.antt =====
-- utils/fvm/src/main.c: the modules of the server, those of the start and those of the command line.
use flipper.Prelude.{
  ℕ, ◌≡◌, refl, ap, ◌∙◌, List, [], ◌∷◌, none, some, Bool, true, false, if◌then◌else◌, length, take,
  ◌==◌, All, Bool-cases, Option-cases, inl, inr, ◌&&◌,
}
use flipper.Prelude.Bytes.{bytes_eq, bytes_eq_refl}
use flipper.Prelude.Outcome.{done}
use flipper.Error.{lf_success, e_null}
use flipper.Device.{Module, Device}
use flipper.Modules.{find}
use flipper.Modules.Register.{Distinct, Registered, registered, or_else}
use flipper.Network.{Network}
use flipper.Fvm.{Host, platform, load_modules}

module _ {E : Type 0} where
  abbrev pub IsKnown : List ℕ → List (Module (Network E)) → Type 0
  IsKnown n ms = (m : Module (Network E)) × (find n ms ≡ some m)

  -- the name that a module of the library is registered with
  abbrev pub named : (symbol : List ℕ) → Module (Network E) → Module (Network E)
  named symbol m = if length m.name == 0 then record m { name = take 31 symbol } else m

module _ {E : Type 0} (h : Host E) where
  -- A symbol of the library whose module has its name in the list.
  abbrev pub IsLoaded : List (Module (Network E)) → List ℕ → Type 0
  IsLoaded ms symbol =
      (m : Module (Network E)) × (h.dlsym (take 31 symbol) ≡ some m)
      × IsKnown (named symbol m).name ms

  record Loaded (symbols : List (List ℕ)) (d : Device (Network E)) : Type 0 where
    ok : Bool
    d' : Device (Network E)
    run : load_modules h symbols d ≡ done ok d'
    distinct : Distinct d.modules → Distinct d'.modules
    keeps : (n : List ℕ) → IsKnown n d.modules → IsKnown n d'.modules
    loaded : ok ≡ true → All (IsLoaded d'.modules) symbols

  registered-keeps :
      (m : Module (Network E)) (d : Device (Network E)) (r : Registered (platform h) m d)
      → (n : List ℕ) → IsKnown n d.modules
      → IsKnown n r.d'.modules
  registered-keeps m d r n (x, e) = (
    x,
    r.stands_for n
        ∙ ap
            (λ t.
              or_else t
                (if (r.status == lf_success) && bytes_eq r.m'.name n then some r.m' else none))
            e,
  )

  registered-IsKnown :
      (m : Module (Network E)) (d : Device (Network E)) (r : Registered (platform h) m d)
      → (r.status == lf_success) ≡ true
      → IsKnown m.name r.d'.modules
  registered-IsKnown m d r success =
      let same : bytes_eq r.m'.name m.name ≡ true =
        ap (λ n. bytes_eq n m.name) r.name ∙ bytes_eq_refl m.name in
      elim (Option-cases (find m.name d.modules)) [
        | inl e ↦ (r.m', r.stands_for m.name ∙ rw (e, success, same) refl)
        | inr (x, e) ↦ registered-keeps m d r m.name (x, e)
      ]

  failed :
      (symbol : List ℕ) (symbols : List (List ℕ)) (d d' : Device (Network E))
      → load_modules h (symbol ∷ symbols) d ≡ done false d'
      → (Distinct d.modules → Distinct d'.modules)
      → ((n : List ℕ) → IsKnown n d.modules → IsKnown n d'.modules)
      → Loaded (symbol ∷ symbols) d
  failed symbol symbols d d' run distinct keeps = record {
    ok = false;
    d' = d';
    run = run;
    distinct = distinct;
    keeps = keeps;
    loaded = λ e. absurd cc;
  }

  IsLoaded-keeps :
      (symbols : List (List ℕ)) (ms ms' : List (Module (Network E)))
      → ((n : List ℕ) → IsKnown n ms → IsKnown n ms')
      → All (IsLoaded ms) symbols
      → All (IsLoaded ms') symbols
  IsLoaded-keeps [] ms ms' keeps all = tt
  IsLoaded-keeps (s ∷ symbols) ms ms' keeps ((m, e, known), rest) =
      ((m, e, keeps (named s m).name known), IsLoaded-keeps symbols ms ms' keeps rest)

  -- one module, with the library open and the rest of the command line loaded behind it
  load_one :
      (symbol : List ℕ) (symbols : List (List ℕ)) (d : Device (Network E)) (m : Module (Network E))
      → h.dlopen ≡ true
      → h.dlsym (take 31 symbol) ≡ some m
      → ((v : Device (Network E)) → Loaded symbols v)
      → Loaded (symbol ∷ symbols) d
  unfolding load_modules
  load_one symbol symbols d m opened found next =
      let r = registered (platform h) (named symbol m) d in
      elim (Bool-cases (r.status == lf_success)) [
        | inl success ↦
            let l = next r.d' in
            let known = registered-IsKnown (named symbol m) d r success in
            record {
              ok = l.ok;
              d' = l.d';
              run = rw (opened, found, r.run, success, load_modules) l.run;
              distinct = λ ds. l.distinct (r.distinct ds);
              keeps = λ n k. l.keeps n (registered-keeps (named symbol m) d r n k);
              loaded = λ e. ((m, found, l.keeps (named symbol m).name known), l.loaded e);
            }
        | inr refused ↦
            failed symbol symbols d (record r.d' { err = e_null })
              (rw (opened, found, r.run, refused, load_modules) refl) r.distinct
              (λ n k. registered-keeps (named symbol m) d r n k)
      ]

  loads : (symbols : List (List ℕ)) (d : Device (Network E)) → Loaded symbols d
  unfolding load_modules
  loads [] d = record {
    ok = true;
    d' = d;
    run = refl;
    distinct = λ ds. ds;
    keeps = λ n k. k;
    loaded = λ e. tt;
  }
  loads (symbol ∷ symbols) d = elim (Bool-cases h.dlopen) [
    | inr shut ↦
        failed symbol symbols d (record d { err = e_null }) (rw (shut, load_modules) refl)
          (λ ds. ds) (λ n k. k)
    | inl opened ↦ elim (Option-cases (h.dlsym (take 31 symbol))) [
      | inl missing ↦
          failed symbol symbols d (record d { err = e_null })
            (rw (opened, missing, load_modules) refl) (λ ds. ds) (λ n k. k)
      | inr (m, found) ↦ load_one symbol symbols d m opened found (λ v. loads symbols v)
    ]
  ]

  -- Loading the modules of a command line ends without a fault, whatever fails of it. Modules with distinct names
  -- stay so, and no name is lost; and where it succeeds, each symbol, cut to 31 bytes, has a module in the library whose name, or
  -- the cut symbol where that is empty, stands for a module of the device.
  pub load_modules-IsLoaded :
      (symbols : List (List ℕ)) (d : Device (Network E))
      → (ok : Bool) × (d' : Device (Network E)) × (load_modules h symbols d ≡ done ok d')
        × (Distinct d.modules → Distinct d'.modules)
        × ((n : List ℕ) → IsKnown n d.modules → IsKnown n d'.modules)
        × (ok ≡ true → All (IsLoaded d'.modules) symbols)
  load_modules-IsLoaded symbols d =
      let l = loads symbols d in (l.ok, l.d', l.run, l.distinct, l.keeps, l.loaded)
