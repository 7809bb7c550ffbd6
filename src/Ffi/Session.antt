-- ===== src/Ffi/Session.antt =====
-- A C client of the library: calls and releases in any order.
use mathlib.Core.Path.{ap₂}
use lp_0008_logos_agent_modu.Base.{
  ℕ, ◌≤◌, ◌<◌, ◌≡◌, refl, sym, ap, ◌∙◌, false, Option, none, some, List, [], ◌∷◌, arith, ◌==◌,
  Bool-cases, inl, inr, ==_refl, if◌then◌else◌, Text,
}
use lp_0008_logos_agent_modu.Keys.{Sha256, Base58}
use lp_0008_logos_agent_modu.Keystore.Crates.{Crypto}
use lp_0008_logos_agent_modu.Provider.Crates.{Json, HexCodec, Identity, Wallet}
use lp_0008_logos_agent_modu.Provider.{ProviderError}
use lp_0008_logos_agent_modu.Provider.World.{Act}
use lp_0008_logos_agent_modu.Ffi.{
  CArg, null, no_utf8, valid, CHeap, State, lookup_cell, remove_cell, lez_wallet_free_string,
  lez_wallet_sync_private,
}
use lp_0008_logos_agent_modu.Ffi.Heap.{one_more}
use lp_0008_logos_agent_modu.Ffi.Exports.{CCall, settled, serve, demand, serve-settled}

-- What the client does with the strings: it gets a new one, with its text, it releases one, or
-- it leaves them alone.
pub data Event : Type 0 where
  got : ℕ → Text → Event
  gave_back : ℕ → Event
  quiet : Event

-- What is read behind a pointer after an event, from what was read before.
abbrev after_event : ℕ → Event → Option Text → Option Text
after_event p (got q s) o = if q == p then some s else o
after_event p (gave_back q) o = if q == p then none else o
after_event p quiet o = o

-- What is read behind a pointer after a session: the text that was got last, if it was not given
-- back since.
abbrev pub held : ℕ → List Event → Option Text → Option Text
held p [] o = o
held p (e ∷ es) o = held p es (after_event p e o)

-- The addresses fall from below a bound, and so they differ.
abbrev pub Falls : ℕ → List (ℕ × Text) → Type 0
Falls n [] = Unit
Falls n ((q, s) ∷ cells) = (q < n) × Falls q cells

-- The heap of a client that released no pointer twice.
abbrev pub IsOrdered : CHeap → Type 0
IsOrdered heap = Falls heap.next heap.live × (heap.broken ≡ false)

Falls-mono : (m n : ℕ) (cells : List (ℕ × Text)) → m ≤ n → Falls m cells → Falls n cells
Falls-mono m n [] h _ = tt
Falls-mono m n ((q, s) ∷ cells) h (k, f) = (omega arith, f)

lookup_cell-Falls :
    (p n : ℕ) (cells : List (ℕ × Text)) → Falls n cells → n ≤ p → lookup_cell p cells ≡ none
lookup_cell-Falls p n [] f h = refl
lookup_cell-Falls p n ((q, s) ∷ cells) (k, f) h =
    ground (arith, lookup_cell-Falls p q cells f (omega arith))

remove_cell-Falls :
    (p n : ℕ) (cells : List (ℕ × Text)) → Falls n cells → Falls n (remove_cell p cells)
remove_cell-Falls p n [] f = tt
remove_cell-Falls p n ((q, s) ∷ cells) (k, f) = elim (Bool-cases (q == p)) [
  | inl e ↦ rw e (Falls-mono q n cells (omega arith) f)
  | inr e ↦ rw e (k, remove_cell-Falls p q cells f)
]

lookup_cell-remove_cell :
    (r p n : ℕ) (cells : List (ℕ × Text))
    → Falls n cells
    → lookup_cell r (remove_cell p cells) ≡ (if p == r then none else lookup_cell r cells)
lookup_cell-remove_cell r p n [] f = ground arith
lookup_cell-remove_cell r p n ((q, s) ∷ cells) (k, f) =
    ground (arith, lookup_cell-remove_cell r p q cells f, lookup_cell-Falls r q cells f)

-- What a step does to the heap.
abbrev Follows : CHeap → Event → CHeap → Type 0
Follows before e after =
    IsOrdered after
    × ((p : ℕ) → lookup_cell p after.live ≡ after_event p e (lookup_cell p before.live))

got_one_more-Follows :
    (before : CHeap) (s : Text)
    → IsOrdered before
    → Follows before (got before.next s) (one_more before s)
got_one_more-Follows before s (falls, whole) = (((omega arith, falls), whole), λ p. refl)

got-Follows :
    (before after : CHeap) (p : ℕ) (s t : Text)
    → p ≡ before.next
    → after ≡ one_more before t
    → lookup_cell p after.live ≡ some s
    → IsOrdered before
    → Follows before (got p s) after
got-Follows before after p s t e h read o =
    let found : lookup_cell before.next (one_more before t).live ≡ some t = rw ==_refl refl in
    let texts : some s ≡ some t =
      sym read ∙ ap₂ (λ q (g : CHeap). lookup_cell q g.live) e h ∙ found in
    let same : s ≡ t = cc in rw (h, e, same) (got_one_more-Follows before t o)

gave_back-Follows :
    (before : CHeap) (p : ℕ) (s : Text)
    → lookup_cell p before.live ≡ some s
    → IsOrdered before
    → Follows before (gave_back p) (lez_wallet_free_string (some p) before)
unfolding lez_wallet_free_string
gave_back-Follows before p s h (falls, whole) =
    rw (lez_wallet_free_string, h)
      (
        (remove_cell-Falls p before.next before.live falls, whole),
        λ r. lookup_cell-remove_cell r p before.next before.live falls,
      )

module _ (display : ProviderError → Text) (j : Json) (hex : HexCodec) {i : Identity}
    (lez : Wallet i) (c : Crypto) (sha : Sha256) (b58 : Base58) where
  -- One call of the client, which releases only strings that it holds.
  pub data Step : State i → Event → State i → Type 0 where
    called :
        (q : CCall lez.Entropy c.Rng) (st : State i) (s : Text)
        → lookup_cell
            (serve display j hex lez c sha b58 q st).0
            (serve display j hex lez c sha b58 q st).1.heap.live
          ≡ some s
        → Step st
            (got (serve display j hex lez c sha b58 q st).0 s)
            (serve display j hex lez c sha b58 q st).1
    synced :
        (home : CArg) (st : State i)
        → Step st quiet (lez_wallet_sync_private display j hex i lez home st).1
    freed :
        (p : ℕ) (s : Text) (st : State i)
        → lookup_cell p st.heap.live ≡ some s
        → Step st (gave_back p) (record st { heap = lez_wallet_free_string (some p) st.heap })
    freed_null :
        (st : State i) → Step st quiet (record st { heap = lez_wallet_free_string none st.heap })

  -- A session, with what happened in its order.
  pub data Session : State i → List Event → State i → Type 0 where
    here : (st : State i) → Session st [] st
    next :
        {a b d : State i} {e : Event} {es : List Event}
        → Step a e b
        → Session b es d
        → Session a (e ∷ es) d

  after_call :
      (q : CCall lez.Entropy c.Rng) (st : State i)
      → (s : Text) × ((serve display j hex lez c sha b58 q st).0 ≡ st.heap.next)
        × ((serve display j hex lez c sha b58 q st).1.heap ≡ one_more st.heap s)
  after_call q st = rw serve-settled (of_demand (demand display j hex lez c sha b58 q))
    where
      of_demand :
          (o : Option (Act i Text))
          → (s : Text) × ((settled display o st).0 ≡ st.heap.next)
            × ((settled display o st).1.heap ≡ one_more st.heap s)
      of_demand none = (_, refl, refl)
      of_demand (some op) = (_, refl, refl)

  Step-Follows :
      {a b : State i} {e : Event} → Step a e b → IsOrdered a.heap → Follows a.heap e b.heap
  unfolding lez_wallet_sync_private lez_wallet_free_string
  Step-Follows (called q st s h) o =
      let (t, p, grown) = after_call q st in got-Follows st.heap _ _ s t p grown h o
  Step-Follows (synced null st) o = (o, λ p. refl)
  Step-Follows (synced no_utf8 st) o = (o, λ p. refl)
  Step-Follows (synced (valid home) st) o = (o, λ p. refl)
  Step-Follows (freed p s st h) o = gave_back-Follows st.heap p s h o
  Step-Follows (freed_null st) o = (o, λ p. refl)

  -- A client that gives back only pointers that it holds, each once, never breaks the heap,
  -- whatever it calls in between. At any time it reads behind each pointer the text that it got
  -- there, until it gives it back.
  pub Session-held :
      {a b : State i} {es : List Event}
      → Session a es b
      → IsOrdered a.heap
      → IsOrdered b.heap
        × ((p : ℕ) → lookup_cell p b.heap.live ≡ held p es (lookup_cell p a.heap.live))
  Session-held (here st) o = (o, λ p. refl)
  Session-held (next {es} s rest) o =
      let (ordered, step) = Step-Follows s o in
      let (last, read) = Session-held rest ordered in (last, λ p. read p ∙ ap (held p es) (step p))
