-- ===== src/Fmr/Rpc.antt =====
-- lib/fmr.c: fmr_rpc, and fmr_perform on a message of its class.
use flipper.Prelude.{
  ℕ, ◌+◌, ◌≤◌, ◌<◌, ◌≡◌, refl, ap, ◌∙◌, List, [], ◌∷◌, ◌++◌, none, some, true, false, length,
  get_elem?, arith, leb, ◌==◌,
}
use flipper.Prelude.Bytes.{peek_in, to_le, of_le}
use flipper.Prelude.Outcome.{done}
use flipper.Error.{lf_success, lf_error, e_ok, e_null}
use flipper.Device.{Arg, Function, Module, rpc, Device, Platform, Cmd}
use flipper.Fmr.{
  fmr_magic_number, field, Held, args_of, release_args, rpc_args, module_item, invoke, fmr_rpc,
  dispatch, send_result, fail, perform_class, fmr_perform,
}
use flipper.Fmr.Args.{Holds, Carries, Allocates, rpc_args-Carries}
use flipper.Fmr.Checksum.{message, crc_of, perform_accepts, replied}

get_elem?-cons :
    {A : Type 0} (xs : List A) (i : ℕ) (a : A) → get_elem? xs i ≡ some a → (length xs == 0) ≡ false
get_elem?-cons [] i a h = cc
get_elem?-cons (x ∷ xs) i a h = ground arith

module _ {E : Type 0} where
  -- a byte of the packet that stands behind the others
  pub byte_in :
      (d : Device E) (offset x : ℕ) (xs ys : List ℕ)
      → d.packet ≡ xs ++ (x ∷ ys)
      → length xs ≡ offset
      → field offset 1 d ≡ done x d
  unfolding field of_le
  byte_in d offset x xs ys e o =
      rw (peek_in xs (x ∷ []) ys e o refl) (ap (λ t. done t d) (omega arith))

module _ {E : Type 0} (p : Platform E) (plugins : ℕ → Cmd E (ℕ × ℕ)) where
  module_item-some :
      (d : Device E) (m : Module E) (index : ℕ)
      → get_elem? d.modules index ≡ some m
      → module_item p index d ≡ done (some m) d
  unfolding module_item
  module_item-some d m index h = rw (h, module_item) refl

  module_item-none :
      (d : Device E) (index : ℕ)
      → get_elem? d.modules index ≡ none
      → module_item p index d ≡ done none (record d { err = e_null })
  unfolding module_item
  module_item-none d index h = rw (h, module_item) refl

  invoke_function :
      (d : Device E) (m : Module E) (f : Function E) (function : ℕ) (hs : List Held)
      → get_elem? m.table function ≡ some f
      → invoke p m function hs d ≡ (
          let r = f (args_of hs) d.env d.err in
          done r.0 (record d { env = release_args p hs r.1; err = r.2 }))
  unfolding invoke
  invoke_function d m f function hs h = rw h refl

  -- The call that an fmr_rpc makes: the arguments that it read, and what the function made of them.
  pub record Called (f : Function E) (as' : List Arg) (d : Device E) : Type 0 where
    pub held : List Held
    pub before : E
    pub read : rpc_args p (length as') 0 26 [] d ≡ done (some held) (record d { env = before })
    pub carried : Carries as' (args_of held)

  -- the state behind a call: the function has run once, and the arguments are released
  abbrev pub after : (f : Function E) (as' : List Arg) (d : Device E) → Called f as' d → Device E
  after f as' d c =
      let r = f (args_of c.held) c.before d.err in
      record d { env = release_args p c.held r.1; err = r.2 }

  abbrev pub returned : (f : Function E) (as' : List Arg) (d : Device E) → Called f as' d → ℕ
  returned f as' d c = (f (args_of c.held) c.before d.err).0

  -- Where the packet names a function that a module has, holds the arguments, and memory is not exhausted,
  -- fmr_rpc runs the function once with those arguments, releases them and returns its value.
  pub fmr_rpc-Called :
      (d : Device E) (m : Module E) (f : Function E) (as' : List Arg) (index function : ℕ)
      → Allocates p
      → field 6 1 d ≡ done index d
      → field 7 1 d ≡ done function d
      → field 9 1 d ≡ done (length as') d
      → get_elem? d.modules index ≡ some m
      → function < m.length
      → get_elem? m.table function ≡ some f
      → Holds d.packet 0 26 as'
      → (c : Called f as' d) × (fmr_rpc p d
          ≡ done (lf_success, returned f as' d c) (after f as' d c))
  unfolding fmr_rpc
  fmr_rpc-Called d m f as' index function ok e6 e7 e9 hm hl hf holds =
      let (hs, e, run, carried) = rpc_args-Carries p d as' 0 26 [] ok holds in
      let small : leb m.length function ≡ false = ground arith in
      (
        record { held = hs; before = e; read = run; carried = carried },
        rw
            (
              e6,
              e7,
              module_item-some d m index hm,
              small,
              e9,
              run,
              invoke_function (record d { env = e }) m f function hs hf,
            )
            refl,
      )

  -- What fmr_rpc does on the two checks of the message: no module has the index, or it has no such function.
  fmr_rpc-no_module :
      (d : Device E) (index function : ℕ)
      → field 6 1 d ≡ done index d
      → field 7 1 d ≡ done function d
      → get_elem? d.modules index ≡ none
      → fmr_rpc p d ≡ done (lf_error, 0) (record d { err = e_null })
  unfolding fmr_rpc
  fmr_rpc-no_module d index function e6 e7 hm = rw (e6, e7, module_item-none d index hm) refl

  pub fmr_rpc-no_function :
      (d : Device E) (m : Module E) (index function : ℕ)
      → field 6 1 d ≡ done index d
      → field 7 1 d ≡ done function d
      → get_elem? d.modules index ≡ some m
      → m.length ≤ function
      → fmr_rpc p d ≡ done (lf_error, 0) d
  unfolding fmr_rpc
  fmr_rpc-no_function d m index function e6 e7 hm hl =
      let large : leb m.length function ≡ true = ground arith in
      rw (e6, e7, module_item-some d m index hm, large) refl

  -- A message of class 0 in the packet at hand, whose payload is a call.
  abbrev pub Message :
      Device E → (index function ret : ℕ) → (argc : ℕ) → (tail rest : List ℕ) → Type 0
  Message d index function ret argc tail rest =
      let more : List ℕ = index ∷ function ∷ ret ∷ argc ∷ tail in
      (d.packet ≡ message (crc_of 0 more) 0 more ++ rest) × (length tail + 10 < 65536)

  -- the device when a message has passed the checks and its dispatcher runs
  abbrev pub dispatched : Device E → (more rest : List ℕ) → Device E
  dispatched d more rest = record d {
    packet = message 0 0 more ++ rest;
    err = e_ok;
    current = true;
  }

  -- what fmr_perform does after a dispatcher has run: it sends the value and the error register
  abbrev pub Answered : Device E → (value : ℕ) → Device E → Type 0
  Answered d value d' =
      fmr_perform p plugins true d
      ≡ done (replied p plugins (record d' { current = false }) value d'.err).0
          (replied p plugins (record d' { current = false }) value d'.err).1

  perform-rpc :
      (d : Device E) (more rest : List ℕ) (status value : ℕ) (d' : Device E)
      → d.packet ≡ message (crc_of 0 more) 0 more ++ rest
      → length more + 6 < 65536
      → (length d.modules == 0) ≡ false
      → get_elem? d.registry 0 ≡ some (some rpc)
      → fmr_rpc p (dispatched d more rest) ≡ done (status, value) d'
      → Answered d value d'
  unfolding perform_class dispatch fail send_result
  perform-rpc d more rest status value d' e size modules registered run =
      perform_accepts p plugins d 0 more rest e (omega arith) size
      ∙ rw (modules, registered, run) refl

  call_field :
      (d : Device E) (a b c n : ℕ) (tail rest : List ℕ)
      → (field 6 1 (dispatched d (a ∷ b ∷ c ∷ n ∷ tail) rest)
          ≡ done a (dispatched d (a ∷ b ∷ c ∷ n ∷ tail) rest))
        × (field 7 1 (dispatched d (a ∷ b ∷ c ∷ n ∷ tail) rest)
            ≡ done b (dispatched d (a ∷ b ∷ c ∷ n ∷ tail) rest))
        × (field 9 1 (dispatched d (a ∷ b ∷ c ∷ n ∷ tail) rest)
            ≡ done n (dispatched d (a ∷ b ∷ c ∷ n ∷ tail) rest))
  unfolding to_le
  call_field d a b c n tail rest =
      let z = dispatched d (a ∷ b ∷ c ∷ n ∷ tail) rest in
      let k : ℕ = length (a ∷ b ∷ c ∷ n ∷ tail) + 6 in
      let h : List ℕ = fmr_magic_number ∷ (to_le 2 0 ++ (to_le 2 k ++ to_le 1 0)) in
      (
        byte_in z 6 a h (b ∷ c ∷ n ∷ (tail ++ rest)) refl refl,
        byte_in z 7 b (h ++ a ∷ []) (c ∷ n ∷ (tail ++ rest)) refl refl,
        byte_in z 9 n (h ++ a ∷ b ∷ c ∷ []) (tail ++ rest) refl refl,
      )

  -- On a call message for a function that the device has, which holds the arguments, where the dispatcher of
  -- class 0 is fmr_rpc and memory is not exhausted, fmr_perform runs that function once, on arguments of the
  -- same types whose values agree on the bytes of their types, and sends the value that it returned with the
  -- error that it left.
  pub fmr_perform-Called :
      (d : Device E) (m : Module E) (f : Function E) (as' : List Arg) (index function ret : ℕ)
      (tail rest : List ℕ)
      → Allocates p
      → Message d index function ret (length as') tail rest
      → get_elem? d.registry 0 ≡ some (some rpc)
      → get_elem? d.modules index ≡ some m
      → function < m.length
      → get_elem? m.table function ≡ some f
      → Holds (message 0 0 (index ∷ function ∷ ret ∷ length as' ∷ tail) ++ rest) 0 26 as'
      → (c : Called f as' (dispatched d (index ∷ function ∷ ret ∷ length as' ∷ tail) rest))
        × Answered d
            (returned f as' (dispatched d (index ∷ function ∷ ret ∷ length as' ∷ tail) rest) c)
            (after f as' (dispatched d (index ∷ function ∷ ret ∷ length as' ∷ tail) rest) c)
  fmr_perform-Called d m f as' index function ret tail rest ok (e, size) registered hm hl hf holds =
      let more : List ℕ = index ∷ function ∷ ret ∷ length as' ∷ tail in
      let z = dispatched d more rest in
      let (e6, e7, e9) = call_field d index function ret (length as') tail rest in
      let (c, run) = fmr_rpc-Called z m f as' index function ok e6 e7 e9 hm hl hf holds in
      (
        c,
        perform-rpc d more rest lf_success (returned f as' z c) (after f as' z c) e (omega arith)
            (get_elem?-cons d.modules index m hm) registered run,
      )

  -- On a call message, where the dispatcher of class 0 is fmr_rpc and the module at the index has no such
  -- function, the dispatcher fails, but the reply is the value 0 and E_OK.
  fmr_perform-no_function :
      (d : Device E) (m : Module E) (index function ret argc : ℕ) (tail rest : List ℕ)
      → Message d index function ret argc tail rest
      → get_elem? d.registry 0 ≡ some (some rpc)
      → get_elem? d.modules index ≡ some m
      → m.length ≤ function
      → let z = dispatched d (index ∷ function ∷ ret ∷ argc ∷ tail) rest in
        (fmr_rpc p z ≡ done (lf_error, 0) z) × Answered d 0 z
  fmr_perform-no_function d m index function ret argc tail rest (e, size) registered hm hl =
      let more : List ℕ = index ∷ function ∷ ret ∷ argc ∷ tail in
      let z = dispatched d more rest in
      let (e6, e7, e9) = call_field d index function ret argc tail rest in
      let run = fmr_rpc-no_function z m index function e6 e7 hm hl in
      (
        run,
        perform-rpc d more rest lf_error 0 z e (omega arith) (get_elem?-cons d.modules index m hm)
            registered run,
      )

  -- On a call message, where the dispatcher of class 0 is fmr_rpc and the device has modules but none at the
  -- index, the reply is the value 0 and E_NULL.
  fmr_perform-no_module :
      (d : Device E) (index function ret argc : ℕ) (tail rest : List ℕ)
      → Message d index function ret argc tail rest
      → get_elem? d.registry 0 ≡ some (some rpc)
      → (length d.modules == 0) ≡ false
      → get_elem? d.modules index ≡ none
      → Answered d 0
          (record (dispatched d (index ∷ function ∷ ret ∷ argc ∷ tail) rest) { err = e_null })
  fmr_perform-no_module d index function ret argc tail rest (e, size) registered some_module hm =
      let more : List ℕ = index ∷ function ∷ ret ∷ argc ∷ tail in
      let z = dispatched d more rest in
      let (e6, e7, e9) = call_field d index function ret argc tail rest in
      perform-rpc d more rest lf_error 0 (record z { err = e_null }) e (omega arith) some_module
        registered (fmr_rpc-no_module z index function e6 e7 hm)
