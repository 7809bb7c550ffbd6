-- ===== src/Ffi/Heap.antt =====
-- Who owns the strings that the C functions return.
use mathlib.Core.Path.{ap₂}
use lp_0008_logos_agent_modu.Base.{
  ℕ, suc, ◌≤◌, ◌<◌, ◌≡◌, refl, ap, ◌∙◌, true, none, some, List, [], ◌∷◌, arith, ==_refl, All,
  Result, ok, err, Text, lit,
}
use lp_0008_logos_agent_modu.Provider.Crates.{Json, HexCodec, Identity, Wallet}
use lp_0008_logos_agent_modu.Provider.{ProviderError}
use lp_0008_logos_agent_modu.Provider.World.{World, Act}
use lp_0008_logos_agent_modu.Provider.Transfers.{send_to_foreign}
use lp_0008_logos_agent_modu.Ffi.{
  CArg, null, no_utf8, valid, CHeap, State, to_cstring, cstring, envelope, error_result,
  lookup_cell, lez_wallet_free_string, respond, refuse, with_arg, run_op, lez_wallet_send_to,
}

-- All addresses lie below the next one.
abbrev pub IsFresh : CHeap → Type 0
IsFresh heap = All (λ (cell : ℕ × Text). cell.0 < heap.next) heap.live

-- The function returned one new string, and left all others.
abbrev pub HandsOut : CHeap → ℕ × CHeap → Type 0
HandsOut before r =
    (s : Text) × (r.0 ≡ before.next)
    × (r.1 ≡ record before { live = (before.next, s) ∷ before.live; next = suc before.next })

to_cstring-HandsOut : (s : Text) (heap : CHeap) → HandsOut heap (to_cstring s heap)
unfolding to_cstring
to_cstring-HandsOut s heap = (cstring s, refl, refl)

abbrev pub heap_of : {i : Identity} → ℕ × State i → ℕ × CHeap
heap_of r = (r.0, r.1.heap)

module _ (display : ProviderError → Text) {i : Identity} where
  respond-HandsOut :
      (r : Result Text ProviderError × World i) (heap : CHeap)
      → HandsOut heap (heap_of (respond display r heap))
  unfolding respond to_cstring error_result
  respond-HandsOut (ok s, w) heap = (cstring s, refl, refl)
  respond-HandsOut (err e, w) heap = (cstring (envelope (display e)), refl, refl)

  pub run_op-HandsOut :
      (op : Act i Text) (st : State i) → HandsOut st.heap (heap_of (run_op display op st))
  unfolding run_op
  run_op-HandsOut op st = respond-HandsOut (op st.world) st.heap

  pub with_arg-HandsOut :
      (a : CArg) (k : Text → State i → ℕ × State i) (st : State i)
      → ((s : Text) → HandsOut st.heap (heap_of (k s st)))
      → HandsOut st.heap (heap_of (with_arg display a k st))
  unfolding with_arg refuse error_result to_cstring
  with_arg-HandsOut null k st h = (cstring (envelope (lit "null argument")), refl, refl)
  with_arg-HandsOut no_utf8 k st h = (cstring (envelope (lit "null argument")), refl, refl)
  with_arg-HandsOut (valid s) k st h = h s

  -- `lez_wallet_send_to` returns one new string, whether an argument is missing, the transfer
  -- fails or succeeds, and leaves the other strings as they are.
  pub lez_wallet_send_to-HandsOut :
      (j : Json) (hex : HexCodec) (lez : Wallet i) (home_dir npk_hex vpk_hex amount_decimal : CArg)
      (st : State i)
      → HandsOut st.heap (
          heap_of
            (lez_wallet_send_to display j hex i lez home_dir npk_hex vpk_hex amount_decimal st))
  unfolding lez_wallet_send_to
  lez_wallet_send_to-HandsOut j hex lez home_dir npk_hex vpk_hex amount_decimal st =
      with_arg-HandsOut home_dir _ st (λ home. with_arg-HandsOut npk_hex _ st (λ npk.
        with_arg-HandsOut vpk_hex _ st (λ vpk.
          with_arg-HandsOut amount_decimal _ st
            (λ amt. run_op-HandsOut (send_to_foreign j hex i lez home npk vpk amt) st))))

lookup_cell-fresh :
    (p n : ℕ) (cells : List (ℕ × Text))
    → All (λ (cell : ℕ × Text). cell.0 < n) cells
    → n ≤ p
    → lookup_cell p cells ≡ none
lookup_cell-fresh p n [] fresh h = refl
lookup_cell-fresh p n ((q, s) ∷ cells) (below, fresh) h =
    ground (arith, lookup_cell-fresh p n cells fresh h)

abbrev pub one_more : CHeap → Text → CHeap
one_more heap s = record heap { live = (heap.next, s) ∷ heap.live; next = suc heap.next }

pub free_one_more :
    (heap : CHeap) (s : Text)
    → lez_wallet_free_string (some heap.next) (one_more heap s)
      ≡ record heap { next = suc heap.next }
unfolding lez_wallet_free_string
free_one_more heap s = rw (lez_wallet_free_string, ==_refl heap.next) (rw (==_refl heap.next) refl)

free_fresh :
    (heap : CHeap) (p : ℕ)
    → lookup_cell p heap.live ≡ none
    → (lez_wallet_free_string (some p) heap).broken ≡ true
unfolding lez_wallet_free_string
free_fresh heap p h = rw (lez_wallet_free_string, h) refl

-- A string that was handed out is freed once: what is left are the strings before, and a second
-- release of the same pointer is an error of the caller.
pub free-HandsOut :
    (heap : CHeap) (r : ℕ × CHeap)
    → IsFresh heap
    → HandsOut heap r
    → let freed = lez_wallet_free_string (some r.0) r.1 in
      (freed.live ≡ heap.live)
      × (freed.broken ≡ heap.broken)
      × ((lez_wallet_free_string (some r.0) freed).broken ≡ true)
free-HandsOut heap r fresh (s, p, h) =
    let freed : lez_wallet_free_string (some r.0) r.1 ≡ record heap { next = suc heap.next } =
      ap₂ (λ q g. lez_wallet_free_string (some q) g) p h ∙ free_one_more heap s in
    (
      ap (λ (g : CHeap). g.live) freed,
      ap (λ (g : CHeap). g.broken) freed,
      ap₂ (λ q (g : CHeap). (lez_wallet_free_string (some q) g).broken) p freed
          ∙ free_fresh (record heap { next = suc heap.next }) heap.next
              (lookup_cell-fresh heap.next heap.next heap.live fresh (omega arith)),
    )
