-- ===== src/Assistant.antt =====
-- tools/assurance_assistant.py: the policy, the decision on a request, and the run of a decision.
pub mod Raising
pub mod Run
pub mod Reads
pub mod Permitted
pub mod Effects
pub mod Audited
pub mod Evaluation
pub mod Evaluated
pub mod Frozen
mod Tests
use astra_sim_fsw.Base.{
  ℕ, Bool, true, false, not, ◌&&◌, ◌||◌, List, [], ◌∷◌, ◌++◌, map, Option, none, some, Text, codes,
  text_eq, starts_with, strip, split, filter, any, all, Result, ok, err, Exception, value_error,
  os_error, attribute_error, ◌>>=◌, if◌then◌else◌,
}
use astra_sim_fsw.Base.Int.{ℤ}
use astra_sim_fsw.Base.Dict.{Dict, lookup}
use astra_sim_fsw.Base.Json.{
  Value, null, bool, int, float, str, arr, obj, Items, Fields, get, values, entries, str_of,
}

-- A path as its parts; the first part of an absolute path is its root.
abbrev pub FilePath : Type 0
FilePath = List Text

-- What the program asks of the system: the exception that `Path.resolve(strict=False)` raises on a
-- path, if it raises one, and the path that it returns otherwise; `Path.is_file`, the bytes of a
-- file, a subprocess with its return code and output, the decoding of bytes, and `repr`.
pub record World : Type 0 where
  pub raises : FilePath → Option Exception
  pub resolve : FilePath → FilePath
  pub is_file : FilePath → Bool
  pub read_bytes : FilePath → Result (List ℕ)
  pub run_process : List Text → Result (ℤ × Text)
  pub decode_utf8 : List ℕ → Text
  pub repr : Value → Text
  pub repo_root : FilePath

pub record Decision : Type 0 where
  pub allowed : Bool
  pub action : Text
  pub target : Text
  pub reason : Text
  pub command : List Text
  pub resolved_path : Option FilePath

-- The parts of the policy that a decision reads, with `str` applied to the entries of its lists.
pub record Policy : Type 0 where
  pub approved_read_roots : List Text
  pub allowlisted_tools : Dict Value
  pub explicitly_denied_actions : List Text

list_of : Text → Option Value → Result (List Value)
list_of message (some (arr vs)) = ok (values vs)
list_of message _ = err (value_error message)

object_of : Text → Option Value → Result (Dict Value)
object_of message (some (obj d)) = ok (entries d)
object_of message _ = err (value_error message)

is_text : Text → Option Value → Bool
is_text s (some (str t)) = text_eq t s
is_text s _ = false

policy_lists : (Value → Text) → Fields → Result Policy
unfolding list_of object_of get
policy_lists repr payload = do
  roots ←
      list_of (codes "approved_read_roots must be a list")
        (get (codes "approved_read_roots") payload)
  tools ←
      object_of (codes "allowlisted_tools must be an object")
        (get (codes "allowlisted_tools") payload)
  denied ←
      list_of (codes "explicitly_denied_actions must be a list")
        (get (codes "explicitly_denied_actions") payload)
  ok (record {
    approved_read_roots = map (str_of repr) roots;
    allowlisted_tools = tools;
    explicitly_denied_actions = map (str_of repr) denied;
  })

checked_policy : (Value → Text) → Text → Fields → Result Policy
unfolding policy_lists is_text
checked_policy repr path payload =
    if is_text (codes "astra-os.assurance-assistant-policy.v1") (get (codes "schema") payload)
    then policy_lists repr payload
    else err (value_error (codes "unexpected assistant policy schema in " ++ path))

-- `load_policy`, from what reading and parsing the file gives. A payload that is no object has no
-- method `get`.
unfoldable pub load_policy : (Value → Text) → Text → Result Value → Result Policy
unfolding checked_policy
load_policy repr path (err (os_error m)) =
    err (value_error (codes "unable to read assistant policy " ++ (path ++ (codes ": " ++ m))))
load_policy repr path (err (value_error m)) =
    err (value_error (codes "unable to read assistant policy " ++ (path ++ (codes ": " ++ m))))
load_policy repr path (err e) = err e
load_policy repr path (ok (obj payload)) = checked_policy repr path payload
load_policy repr path (ok _) = err attribute_error

-- `Path(text)`: empty parts and single dots are dropped, and two leading slashes are a root of
-- their own.
unfoldable pub parse_path : Text → FilePath
parse_path s =
    let parts = filter (λ p. not (text_eq p [] || text_eq p (codes "."))) (split b'/' s) in
    if starts_with s (codes "//") && not (starts_with s (codes "///"))
    then codes "//" ∷ parts
    else if starts_with s (codes "/")
    then codes "/" ∷ parts
    else parts

unfoldable pub is_absolute : Text → Bool
is_absolute s = starts_with s (codes "/")

-- `path.relative_to(root)` does not raise.
unfoldable pub is_relative_to : FilePath → FilePath → Bool
is_relative_to path [] = true
is_relative_to [] (r ∷ root) = false
is_relative_to (p ∷ path) (r ∷ root) = text_eq p r && is_relative_to path root

-- `resolved == approved`
unfoldable pub path_eq : FilePath → FilePath → Bool
path_eq [] [] = true
path_eq (p ∷ ps) (q ∷ qs) = text_eq p q && path_eq ps qs
path_eq _ _ = false

-- `repository / text`: an absolute text replaces the repository.
unfoldable pub join_path : FilePath → Text → FilePath
join_path base s = if is_absolute s then parse_path s else base ++ parse_path s

-- The loop over the approved roots.
unfoldable pub find_root : World → FilePath → FilePath → List Text → Option FilePath
find_root w repository resolved [] = none
find_root w repository resolved (root_text ∷ roots) =
    let approved = w.resolve (join_path repository root_text) in
    if path_eq resolved approved || is_relative_to resolved approved
    then some resolved
    else find_root w repository resolved roots

-- The path that the target is resolved from.
unfoldable pub candidate : World → Text → FilePath
candidate w target =
    if is_absolute target then parse_path target else w.repo_root ++ parse_path target

unfoldable pub resolved_target : World → Text → FilePath
resolved_target w target =
    if is_absolute target
    then w.resolve (parse_path target)
    else w.resolve (w.repo_root ++ parse_path target)

unfoldable pub resolve_approved_read_path : World → Text → Policy → Option FilePath
resolve_approved_read_path w target policy =
    let resolved = resolved_target w target in
    let repository = w.resolve w.repo_root in
    if not (is_relative_to resolved repository)
    then none
    else find_root w repository resolved policy.approved_read_roots

unfoldable pub denied : Text → Text → Text → Decision
denied action target reason = record {
  allowed = false;
  action = action;
  target = target;
  reason = reason;
  command = [];
  resolved_path = none;
}

-- A tool's command: a list of texts that are not empty.
unfoldable pub texts : List Value → Option (List Text)
texts [] = some []
texts (str [] ∷ vs) = none
texts (str (c ∷ s) ∷ vs) = elim (texts vs) [ none ↦ none | some rest ↦ some ((c ∷ s) ∷ rest) ]
texts (_ ∷ vs) = none

unfoldable pub command_of : Value → Option (List Text)
command_of (arr vs) = texts (values vs)
command_of _ = none

unfoldable pub decide_read : World → Text → Policy → Decision
unfolding denied
decide_read w target policy =
    if text_eq target []
    then denied (codes "read") target (codes "Read target is required")
    else elim (resolve_approved_read_path w target policy) [
      | none ↦ denied (codes "read") target (codes "Path is outside approved project sources")
      | some resolved ↦
          if not (w.is_file resolved)
          then denied (codes "read") target (codes "Approved read target is not a file")
          else record {
            allowed = true;
            action = codes "read";
            target = target;
            reason = codes "Read target is within an approved project source root";
            command = [];
            resolved_path = some resolved;
          }
    ]

unfoldable pub decide_run : Text → Policy → Decision
unfolding denied
decide_run target policy = elim (lookup target policy.allowlisted_tools) [
  | none ↦ denied (codes "run") target (codes "Verification tool is not allow-listed")
  | some command_value ↦ elim (command_of command_value) [
    | none ↦ denied (codes "run") target (codes "Allow-listed tool definition is invalid")
    | some command ↦ record {
      allowed = true;
      action = codes "run";
      target = target;
      reason = codes "Verification tool exactly matches the allow-list";
      command = command;
      resolved_path = none;
    }
  ]
]

-- `str(request.get(key, "")).strip()`
unfoldable pub text_field : World → Text → Fields → Text
text_field w key request = elim (get key request) [
  | none ↦ strip []
  | some v ↦ strip (str_of w.repr v)
]

-- The decision on an action and a target, where no path that it resolves raises.
unfoldable pub decide : World → Text → Text → Policy → Decision
unfolding denied
decide w action target policy =
    if text_eq action []
    then denied action target (codes "Request action is required")
    else if any (λ a. text_eq a action) policy.explicitly_denied_actions
    then denied action target
        (codes "Action " ++ (w.repr (str action) ++ codes " is explicitly denied"))
    else if text_eq action (codes "read")
    then decide_read w target policy
    else if text_eq action (codes "run")
    then decide_run target policy
    else denied action target (codes "Only read and allow-listed run actions are supported")

unfoldable pub decide_request : World → Fields → Policy → Decision
decide_request w request policy =
    decide w (text_field w (codes "action") request) (text_field w (codes "target") request) policy
