-- ===== src/Assistant/Raising.antt =====
-- tools/assurance_assistant.py: the paths that a decision resolves, in their order.
use astra_sim_fsw.Base.{
  Bool, true, false, not, ◌||◌, List, [], ◌∷◌, ◌≡◌, refl, sym, ap, ◌∙◌, ok-injective, Option, none,
  some, Text, codes, text_eq, any, Exception, Result, ok, err, if◌then◌else◌,
}
use astra_sim_fsw.Base.Json.{Fields}
use astra_sim_fsw.Assistant.{
  FilePath, World, Decision, Policy, is_relative_to, path_eq, join_path, candidate, resolved_target,
  text_field, decide_request,
}

-- The first exception of two.
first_of : Option Exception → Option Exception → Option Exception
first_of none later = later
first_of (some e) later = some e

-- What the loop over the approved roots raises, up to the root that approves the path.
unfoldable pub roots_raise : World → FilePath → FilePath → List Text → Option Exception
unfolding first_of
roots_raise w repository resolved [] = none
roots_raise w repository resolved (root_text ∷ roots) =
    let approved = w.resolve (join_path repository root_text) in
    let later = roots_raise w repository resolved roots in
    first_of (w.raises (join_path repository root_text))
      (if path_eq resolved approved || is_relative_to resolved approved then none else later)

-- What `resolve_approved_read_path` raises.
unfoldable pub read_raises : World → Text → Policy → Option Exception
unfolding first_of roots_raise
read_raises w target policy =
    let repository = w.resolve w.repo_root in
    let resolved = resolved_target w target in
    first_of (w.raises (candidate w target)) (
      first_of (w.raises w.repo_root) (
        if is_relative_to resolved repository
        then roots_raise w repository resolved policy.approved_read_roots
        else none))

-- Whether the decision comes to `resolve_approved_read_path`: the action is to read, it is not
-- denied, and there is a target.
unfoldable pub asks_to_read : Text → Text → Policy → Bool
asks_to_read action target policy =
    if any (λ a. text_eq a action) policy.explicitly_denied_actions
    then false
    else if text_eq action (codes "read")
    then not (text_eq target [])
    else false

unless_raised : Option Exception → Decision → Result Decision
unless_raised none decision = ok decision
unless_raised (some e) decision = err e

-- `decide_request`, where resolving may raise.
unfoldable pub try_decide_request : World → Fields → Policy → Result Decision
unfolding asks_to_read read_raises unless_raised
try_decide_request w request policy =
    let action = text_field w (codes "action") request in
    let target = text_field w (codes "target") request in
    unless_raised (if asks_to_read action target policy then read_raises w target policy else none)
      (decide_request w request policy)

if-same {ℓ} : {A : Type ℓ} (b : Bool) (a : A) → (if b then a else a) ≡ a
if-same true a = refl
if-same false a = refl

roots_raise-none :
    (w : World) (repository resolved : FilePath) (roots : List Text)
    → ((path : FilePath) → w.raises path ≡ none)
    → roots_raise w repository resolved roots ≡ none
unfolding roots_raise first_of
roots_raise-none w repository resolved [] quiet = refl
roots_raise-none w repository resolved (root_text ∷ roots) quiet =
    let later = roots_raise-none w repository resolved roots quiet in
    rw (quiet (join_path repository root_text), later) (if-same _ none)

read_raises-none :
    (w : World) (target : Text) (policy : Policy)
    → ((path : FilePath) → w.raises path ≡ none)
    → read_raises w target policy ≡ none
unfolding read_raises first_of
read_raises-none w target policy quiet =
    let resolved = resolved_target w target in
    let loop =
      roots_raise-none w (w.resolve w.repo_root) resolved policy.approved_read_roots quiet in
    rw (quiet (candidate w target), quiet w.repo_root, loop)
      (if-same (is_relative_to resolved (w.resolve w.repo_root)) none)

-- Where no path raises, every request is decided.
pub try_decide_request-ok :
    (w : World) (request : Fields) (policy : Policy)
    → ((path : FilePath) → w.raises path ≡ none)
    → try_decide_request w request policy ≡ ok (decide_request w request policy)
unfolding try_decide_request unless_raised
try_decide_request-ok w request policy quiet =
    let action = text_field w (codes "action") request in
    let target = text_field w (codes "target") request in
    let none_raised =
      ap (λ (e : Option Exception). if asks_to_read action target policy then e else none)
        (read_raises-none w target policy quiet)
      ∙ if-same (asks_to_read action target policy) none in
    ap (λ e. unless_raised e (decide_request w request policy)) none_raised

unless_raised-ok :
    {made decision : Decision} (e : Option Exception)
    → unless_raised e made ≡ ok decision
    → decision ≡ made
unfolding unless_raised
unless_raised-ok none h = sym (ok-injective h)
unless_raised-ok (some e) h = absurd (cc h)

-- Where a decision is made, it is that of `decide_request`.
pub try_decide_request-decision :
    (w : World) (request : Fields) (policy : Policy) {decision : Decision}
    → try_decide_request w request policy ≡ ok decision
    → decision ≡ decide_request w request policy
unfolding try_decide_request
try_decide_request-decision w request policy h =
    let action = text_field w (codes "action") request in
    let target = text_field w (codes "target") request in
    unless_raised-ok
      (if asks_to_read action target policy then read_raises w target policy else none) h
