-- ===== src/Ffi/Tests.antt =====
-- The C functions at concrete data.
use lp_0008_logos_agent_modu.Base.{
  ℕ, List, none, if◌then◌else◌, drop, take, ◌≡◌, refl, true, false, some, [], ◌∷◌, Text, lit,
}
use lp_0008_logos_agent_modu.AgentCli.JsonStr.Decode.{read_literal}
use lp_0008_logos_agent_modu.Provider.{ProviderError}
use lp_0008_logos_agent_modu.Provider.Tests.{toy_json, codec, identity, toy_wallet, start, sha, b58}
use lp_0008_logos_agent_modu.Keystore.Tests.{crypto}
use lp_0008_logos_agent_modu.Ffi.{
  null, valid, CHeap, State, envelope, cstring, lez_wallet_free_string, lookup_cell,
}
use lp_0008_logos_agent_modu.Ffi.Envelope.{is_printable, read_literal-envelope}
use lp_0008_logos_agent_modu.Ffi.Heap.{free-HandsOut}
use lp_0008_logos_agent_modu.Ffi.Exports.{
  CCall, npk, send_to, settled, serve, demand, serve-settled,
}
use lp_0008_logos_agent_modu.Ffi.Session.{
  Event, got, gave_back, called, freed, Session, here, next, IsOrdered, held, Session-held,
}

abbrev pub display : ProviderError → Text
display e = lit "failed"

abbrev pub state : State identity
state = record { world = start; heap = record { live = []; next = 0; broken = false } }

read_literal-envelope_example :
    (take 10 (envelope (lit "a\n")) ≡ lit "{\"error\": ")
    × (read_literal (drop 10 (envelope (lit "a\n")))
        ≡ (if is_printable (lit "a\n") then some (lit "a\n", lit "}") else none))
read_literal-envelope_example = read_literal-envelope (lit "a\n")

-- A call without its key, one that is complete, and a release.
abbrev bad_call : CCall ℕ ℕ
bad_call = send_to (valid (lit "home")) null (valid []) (valid (lit "1"))

abbrev good_call : CCall ℕ ℕ
good_call = npk (valid (lit "home")) (valid (lit "pw"))

serve-settled_example :
    serve display toy_json codec toy_wallet crypto sha b58 good_call state
    ≡ settled display (demand display toy_json codec toy_wallet crypto sha b58 good_call) state
serve-settled_example =
    serve-settled display toy_json codec toy_wallet crypto sha b58 good_call state

abbrev answer : ℕ × State identity
answer = serve display toy_json codec toy_wallet crypto sha b58 bad_call state

abbrev refusal : Text
refusal = cstring (envelope (lit "null argument"))

answer_read : lookup_cell answer.0 answer.1.heap.live ≡ some refusal
answer_read = rw serve-settled refl

abbrev released : State identity
released = record answer.1 { heap = lez_wallet_free_string (some answer.0) answer.1.heap }

abbrev events : List Event
events = got answer.0 refusal ∷ gave_back answer.0 ∷ []

session : Session display toy_json codec toy_wallet crypto sha b58 state events released
session =
    next (called bad_call state refusal answer_read)
      (next (freed answer.0 refusal answer.1 answer_read) (here released))

Session-held_example :
    IsOrdered released.heap
    × ((p : ℕ) → lookup_cell p released.heap.live ≡ held p events (lookup_cell p state.heap.live))
Session-held_example =
    Session-held display toy_json codec toy_wallet crypto sha b58 session (tt, refl)

abbrev after : CHeap
after = record { live = (0, lit "x") ∷ []; next = 1; broken = false }

free-HandsOut_example :
    ((lez_wallet_free_string (some 0) after).live ≡ [])
    × ((lez_wallet_free_string (some 0) after).broken ≡ false)
    × ((lez_wallet_free_string (some 0) (lez_wallet_free_string (some 0) after)).broken ≡ true)
free-HandsOut_example = free-HandsOut state.heap (0, after) tt (lit "x", refl, refl)
