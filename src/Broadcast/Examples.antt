-- ===== src/Broadcast/Examples.antt =====
-- The theorems on causal broadcast at concrete messages, and runs of the code.
use gaia_server.Base.{
  ◌++◌, ℕ, zero, suc, ◌+◌, ◌≤◌, ◌<◌, String, ◌≡◌, ◌≢◌, ◌↔◌, refl, true, false, List, [], ◌∷◌, map,
  arith, inl, inr, All, In, count,
}
use gaia_server.Dict
use gaia_server.Dict.{Dict, IsUnique}
use gaia_server.Broadcast.{
  BroadcastMessage, CausalBroadcast, Handler, sender_time, init, others_known, is_deliverable,
  receive, receive_all, send, drain, sweep, subscribe, deliver, notify, try_deliver_buffered,
}
use gaia_server.Broadcast.Clock.{counter}
use gaia_server.Broadcast.Causality.{
  Event, received, sent, subscribed, apply, run, arrivals, IsCausal, run-IsCausal,
}
use gaia_server.Broadcast.Settled.{IsSettled, try_deliver_buffered_ends}
use gaia_server.Broadcast.Reordering.{any_order_delivers}
use gaia_server.Broadcast.Conservation.{known_copies, ids, receive_all_conserves}
use gaia_server.Broadcast.Sending.{is_deliverable_iff}
use gaia_server.Broadcast.Stale.{late_is_held_for_ever, overtaken_is_held_for_ever}
use gaia_server.Broadcast.Network.{
  Wired, Network, sends, arrives, Reach, here, next, fresh_network, send_at, receive_at,
}
use gaia_server.Broadcast.Past.{AreTimely, id_of, source, time}
use gaia_server.Broadcast.Predecessors.{causal_delivery}
use gaia_server.Broadcast.Eventual.{messages, everything_is_delivered}

abbrev message : String → String → Dict ℕ → BroadcastMessage ℕ
message id kind clock = record {
  message_id = id;
  source_core = "a";
  kind = kind;
  payload = 0;
  vector_clock = clock;
  trace_id = "";
  dependencies = [];
}

abbrev first : BroadcastMessage ℕ
first = message "m1" "control" (("a", 1) ∷ [])

abbrev second : BroadcastMessage ℕ
second = message "m2" "policy" (("a", 2) ∷ [])

abbrev beacon : BroadcastMessage ℕ
beacon = message "h2" "health" (("a", 2) ∷ [])

abbrev fresh : CausalBroadcast ℕ ℕ
fresh = init "b" 0

-- A handler that counts, and one that raises.
abbrev counting : Handler ℕ ℕ
counting m w = (w + 1, false)

abbrev failing : Handler ℕ ℕ
failing m w = (w, true)

abbrev late_first : List (Event ℕ ℕ)
late_first =
    subscribed failing
    ∷ subscribed counting
    ∷ received second
    ∷ sent "bc_1" "control" 7 ""
    ∷ received first
    ∷ []

-- The second message waits for the first, and a handler that raises does not stop the next one.
reordered :
    ((run late_first fresh).delivered ≡ "m1" ∷ "m2" ∷ []) × ((run late_first fresh).world ≡ 2)
unfolding run apply init receive try_deliver_buffered drain sweep send subscribe is_deliverable
    others_known deliver notify Dict.get Dict.insert
reordered = (refl, refl)

run-IsCausal_example :
    (log : List (BroadcastMessage ℕ)) × ((run late_first (init "b" 0)).delivered
      ≡ map (λ m. m.message_id) log)
    × All (λ m. In m (arrivals late_first)) log
    × IsCausal log
run-IsCausal_example = run-IsCausal "b" 0 late_first

two_sent :
    (k : ℕ)
    → counter "a" fresh.clock < k
    → k ≤ 2
    → (m : BroadcastMessage ℕ) × In m (second ∷ first ∷ [])
      × (m.source_core ≡ "a")
      × (sender_time m ≡ k)
      × (others_known "a" fresh.clock m.vector_clock ≡ true)
unfolding init others_known Dict.get
two_sent zero lo hi = absurd (omega arith)
two_sent (suc zero) lo hi = (first, inr (inl refl), refl, refl, refl)
two_sent (suc (suc zero)) lo hi = (second, inl refl, refl, refl, refl)
two_sent (suc (suc (suc k))) lo hi = absurd (omega arith)

any_order_delivers_example :
    (2 ≤ counter "a" (receive_all (second ∷ first ∷ []) fresh).clock)
    × ((k : ℕ)
        → counter "a" fresh.clock < k
        → k ≤ 2
        → (m : BroadcastMessage ℕ) × In m (second ∷ first ∷ [])
          × (m.source_core ≡ "a")
          × (sender_time m ≡ k)
          × In m.message_id (receive_all (second ∷ first ∷ []) fresh).delivered)
unfolding init
any_order_delivers_example =
    any_order_delivers "a" 2 (second ∷ first ∷ []) fresh refl (refl, (refl, tt)) two_sent

try_deliver_buffered_ends_example :
    (drain 5 (record fresh { hold_queue = first ∷ [] })
      ≡ try_deliver_buffered (record fresh { hold_queue = first ∷ [] }))
    × IsSettled (try_deliver_buffered (record fresh { hold_queue = first ∷ [] }))
try_deliver_buffered_ends_example =
    try_deliver_buffered_ends 5 (record fresh { hold_queue = first ∷ [] }) (omega arith)

receive_all_conserves_example :
    known_copies "m2" (receive_all (second ∷ beacon ∷ second ∷ []) fresh)
    ≡ known_copies "m2" fresh + count "m2" (ids (second ∷ beacon ∷ second ∷ []))
receive_all_conserves_example = receive_all_conserves "m2" (second ∷ beacon ∷ second ∷ []) fresh

abbrev seen : CausalBroadcast ℕ ℕ
seen = record fresh { clock = ("a", 1) ∷ [] }

late_is_held_for_ever_example : In first (receive_all (first ∷ second ∷ []) seen).hold_queue
unfolding Dict.get
late_is_held_for_ever_example = late_is_held_for_ever first (second ∷ []) seen refl (omega arith)

overtaken_is_held_for_ever_example :
    ((receive beacon fresh).delivered ≡ [] ++ "h2" ∷ [])
    × ((receive beacon fresh).world ≡ notify [] beacon 0)
    × ((receive beacon fresh).hold_queue ≡ [])
    × In first (receive_all (beacon ∷ first ∷ second ∷ []) fresh).hold_queue
unfolding Dict.get init
overtaken_is_held_for_ever_example =
    overtaken_is_held_for_ever first beacon (second ∷ []) fresh refl refl refl (omega arith)

-- The core a sends; b receives that, answers and its answer reaches c, which has not heard of a yet.
abbrev asked : Network ℕ ℕ
asked = send_at "a" "bc_1" "control" 7 "" (fresh_network (λ a. 0))

abbrev question : Wired ℕ
question = record { message = (send "bc_1" "control" 7 "" (init {W = ℕ} "a" 0)).0; known = [] }

abbrev reached : Network ℕ ℕ
reached = receive_at "b" question.message asked

abbrev answered : Network ℕ ℕ
answered = send_at "b" "bc_2" "policy" 8 "" reached

abbrev answer : Wired ℕ
answer = record { message = (send "bc_2" "policy" 8 "" (reached.core "b")).0; known = "bc_1" ∷ [] }

abbrev early : Network ℕ ℕ
early = receive_at "c" answer.message answered

abbrev heard : Network ℕ ℕ
heard = receive_at "c" question.message early

sent_of_both : answered.wire ≡ answer ∷ question ∷ []
unfolding fresh_network send_at receive_at init receive try_deliver_buffered drain sweep send
    is_deliverable others_known deliver notify Dict.get Dict.insert
sent_of_both = refl

sent_of_one : asked.wire ≡ question ∷ []
unfolding fresh_network send_at receive_at init send Dict.get Dict.insert
sent_of_one = refl

early-Reach : Reach (fresh_network (λ a. 0)) early
unfolding receive_at
early-Reach =
    let r1 = next here (sends "a" "bc_1" "control" 7 "" (fresh_network (λ a. 0)) refl) in
    let r2 = next r1 (arrives "b" question asked (rw sent_of_one (inl refl))) in
    let r3 = next r2 (sends "b" "bc_2" "policy" 8 "" reached refl) in
    next r3 (arrives "c" answer answered (rw sent_of_both (inl refl)))

heard-Reach : Reach (fresh_network (λ a. 0)) heard
unfolding receive_at
heard-Reach = next early-Reach (arrives "c" question early (rw sent_of_both (inr (inl refl))))

-- The core c holds the answer until the question comes.
heard_in_order :
    ((early.core "c").delivered ≡ []) × ((heard.core "c").delivered ≡ "bc_1" ∷ "bc_2" ∷ [])
unfolding fresh_network send_at receive_at init receive try_deliver_buffered drain sweep send
    is_deliverable others_known deliver notify Dict.get Dict.insert
heard_in_order = (refl, refl)

causal_delivery_example :
    let clock = (heard.core "c").clock in
    (log : List (Wired ℕ)) × ((heard.core "c").delivered ≡ map id_of log)
    × AreTimely "c" heard.wire [] log
    × ((v : Wired ℕ)
        → In v log ↔ (In v heard.wire × (source v ≢ "c") × (time v ≤ counter (source v) clock)))
    × ((a : String) → counter a clock ≤ counter a (heard.core a).clock)
causal_delivery_example = causal_delivery (λ a. 0) "c" heard-Reach

-- The core c had only the answer; then the question comes twice, and the answer again.
abbrev late : List (Wired ℕ)
late = question ∷ answer ∷ question ∷ []

all_of_both : (v : Wired ℕ) → In v early.wire → source v ≢ "c" → In v late
unfolding receive_at
all_of_both v h ne = elim (rw sent_of_both at h) [
  | inl e ↦ inr (inl e)
  | inr k ↦ elim k [ inl e ↦ inl e | inr none_left ↦ absurd none_left ]
]

late_were_sent : All (λ w. In w early.wire) late
unfolding receive_at
late_were_sent = (
  rw sent_of_both (inr (inl refl)),
  (rw sent_of_both (inl refl), (rw sent_of_both (inr (inl refl)), tt)),
)

everything_is_delivered_example :
    let t = receive_all (messages late) (early.core "c") in
    (log : List (Wired ℕ)) × (t.delivered ≡ map id_of log)
    × AreTimely "c" early.wire [] log
    × ((v : Wired ℕ) → In v log ↔ (In v early.wire × (source v ≢ "c")))
    × ((a : String) → counter a t.clock ≡ counter a (early.core a).clock)
everything_is_delivered_example =
    everything_is_delivered (λ a. 0) "c" late early-Reach late_were_sent all_of_both

is_deliverable_iff_example : (is_deliverable (("a", 1) ∷ []) second ≡ true) ↔ (
    (sender_time second ≡ counter "a" (("a", 1) ∷ []) + 1)
    × ((a : String) → a ≢ "a" → counter a (("a", 2) ∷ []) ≤ counter a (("a", 1) ∷ [])))
unfolding Dict.get
is_deliverable_iff_example = is_deliverable_iff (("a", 1) ∷ []) second (refl, tt)
