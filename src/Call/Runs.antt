-- ===== src/Call/Runs.antt =====
-- Tests of lib/fmr_helper.c on concrete inputs.
use flipper.Prelude.{
  ℕ, ◌+◌, ◌<◌, ◌≡◌, ◌⊎◌, refl, List, [], ◌∷◌, none, some, true, length, replicate, arith,
}
use flipper.Prelude.Bytes.{peek, to_le}
use flipper.Prelude.Outcome.{done}
use flipper.Error.{lf_success, lf_error}
use flipper.Device.Sample.{platform, arg, board, pair}
use flipper.Call.{total, lf_create_call, fmr_build, build_loop, fmr_append_arg}
use flipper.Call.Create.{counted, lf_create_call-total}

lf_create_call-total_example :
    (status : ℕ) × (packet' : List ℕ) × (lf_create_call true 3 4 pair (replicate 64 0)
      ≡ some (status, packet'))
    × (length packet' ≡ 64)
    × (((status ≡ lf_success) × (peek packet' 3 2 ≡ some (to_le 2 (20 + 2 + total (counted pair)))))
        ⊎ ((status ≡ lf_error) × (58 < 20 + 2 + total (counted pair))))
lf_create_call-total_example = lf_create_call-total 3 4 pair (replicate 64 0) refl (omega arith)

-- with the list that lf_ll_create returns, fmr_build gives no list
nothing_built : fmr_build platform none pair (board []) ≡ done none (board [])
unfolding fmr_build
nothing_built = refl

-- with a list it appends the arguments
built :
    fmr_build platform (some []) pair (board [])
    ≡ done
        (some (
          record { arg_at = 101; node_at = 102; arg = arg 17 300 }
          ∷ record { arg_at = 103; node_at = 104; arg = arg 16 7 }
          ∷ []))
        (record (board []) { env = (104, []) })
unfolding fmr_build build_loop fmr_append_arg
built = refl
