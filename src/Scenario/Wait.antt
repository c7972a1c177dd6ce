-- ===== src/Scenario/Wait.antt =====
-- Which packets a wait looks at, and in which order.
use astra_sim_fsw.Base.{
  Bool, true, false, List, [], ◌∷◌, ◌++◌, ◌≡◌, refl, sym, ap, ◌∙◌, append_assoc, Option, none, some,
  Result, ok, err, length, drop-append,
}
use astra_sim_fsw.Base.Json.{Value}
use astra_sim_fsw.Protocol.Telemetry.{Packet}
use astra_sim_fsw.Scenario.{
  Entry, decoded, decode_error, packet_matches, next_match, find_match, Round, end_turn, wait_from,
  wait_for_expectation,
}

-- The second search, where the first found nothing.
or_else : Result (Option Packet) → Result (Option Packet) → Result (Option Packet)
or_else (ok none) r = r
or_else m r = m

or_else-none : {m : Result (Option Packet)} → or_else (ok none) m ≡ m
unfolding or_else
or_else-none = refl

next_match-or_else :
    (p : Packet) (m : Result Bool) (a b : Result (Option Packet))
    → next_match p m (or_else a b) ≡ or_else (next_match p m a) b
unfolding next_match or_else
next_match-or_else p (ok true) a b = refl
next_match-or_else p (ok false) a b = refl
next_match-or_else p (err e) a b = refl

end_turn-or_else :
    (present : List Entry) (m : Result (Option Packet)) (rest : List Entry × Result (Option Packet))
    → (end_turn present m rest).1 ≡ or_else m rest.1
unfolding end_turn or_else
end_turn-or_else present (ok none) rest = refl
end_turn-or_else present (ok (some p)) rest = refl
end_turn-or_else present (err e) rest = refl

find_match-append :
    (expected : Value) (xs ys : List Entry)
    → find_match expected (xs ++ ys) ≡ or_else (find_match expected xs) (find_match expected ys)
unfolding find_match
find_match-append expected [] ys = sym or_else-none
find_match-append expected (decode_error m ∷ xs) ys = find_match-append expected xs ys
find_match-append expected (decoded p ∷ xs) ys =
    ap (next_match p (packet_matches p expected)) (find_match-append expected xs ys)
    ∙ next_match-or_else p (packet_matches p expected) _ _

-- What the turns of a wait look at: what came before the slice of each turn.
abbrev pub looked_at : List Round → List Entry
looked_at [] = []
looked_at (round ∷ rounds) = round.before ++ looked_at rounds

wait_from_lem :
    (expected : Value) (packets : List Entry) (rounds : List Round)
    → (wait_from expected packets (length packets) rounds).1
      ≡ find_match expected (looked_at rounds)
unfolding wait_from find_match
wait_from_lem expected packets [] = refl
wait_from_lem expected packets (round ∷ rounds) =
    let appended = packets ++ round.before ++ round.during in
    end_turn-or_else _ _ _
    ∙ ap
        (λ l.
          or_else (find_match expected l) (wait_from expected appended (length appended) rounds).1)
        (drop-append packets round.before)
    ∙ ap (or_else (find_match expected round.before)) (wait_from_lem expected appended rounds)
    ∙ sym (find_match-append expected round.before (looked_at rounds))

-- A wait of at least one turn returns the first packet that matches among those there when it begins and those that
-- arrive while it sleeps, in their order. What arrives between the slice of a turn and its
-- `checked = len(packets)` it never looks at.
pub wait_for_expectation_lem :
    (expected : Value) (packets : List Entry) (rounds : List Round) (before during : List Entry)
    → (wait_for_expectation expected packets
        (record { before = before; during = during } ∷ rounds)).1
      ≡ find_match expected (packets ++ (before ++ looked_at rounds))
unfolding wait_for_expectation wait_from
wait_for_expectation_lem expected packets rounds before during =
    let appended = packets ++ before ++ during in
    end_turn-or_else _ _ _
    ∙ ap (or_else (find_match expected (packets ++ before)))
        (wait_from_lem expected appended rounds)
    ∙ sym (find_match-append expected (packets ++ before) (looked_at rounds))
    ∙ ap (find_match expected) (append_assoc packets before (looked_at rounds))
