-- ===== src/Wrphandlers/Mocktr181.antt =====
-- internal/wrphandlers/mocktr181: a data model that answers GET and SET requests.
-- `Value` is the type of the JSON values in a parameter's attributes. HandleWrp runs on a copy of the
-- handler, whose slice of parameters is shared: SET changes it for every later call.
-- Here are the two commands; HandleWrp is in Handle, with `unmarshal` and `marshal` for the functions
-- of encoding/json, and New in Build.
pub mod Read
pub mod Write
pub mod Select
pub mod Build
pub mod Handle
use xmidt_agent.Base.{
  ℕ, zero, suc, Bool, true, false, not, ◌&&◌, ◌||◌, Option, some, none, List, [], ◌∷◌, ◌++◌, Text,
  codes, eq_text, has_prefix, contains_byte, is_empty, get_elem?, set, if◌then◌else◌, ◌==◌,
}
use xmidt_agent.Base.Int.{ℤ, pos}
use xmidt_agent.Base.Dict.{Dict}
use xmidt_agent.Wrp.{
  Message, Handler, Error, sentinel, joined, join, not_handled, invalid_response_payload,
}

pub record MockParameter (Value : Type 0) : Type 0 where
  pub name : Text
  pub value : Text
  pub access : Text
  pub data_type : ℤ
  pub attributes : Dict Value
  pub delay : ℤ

pub record Parameter (Value : Type 0) : Type 0 where
  pub name : Text
  pub value : Text
  pub data_type : ℤ
  pub attributes : Dict Value
  pub message : Text
  pub count : ℤ

pub record Tr181Payload (Value : Type 0) : Type 0 where
  pub command : Text
  pub names : List Text
  pub parameters : List (Parameter Value)
  pub status_code : ℕ

abbrev pub status_ok : ℕ
status_ok = 200

abbrev pub status_accepted : ℕ
status_accepted = 202

abbrev pub status_failed : ℕ
status_failed = 520

-- strings.Contains(access, "r") and strings.Contains(access, "w")
abbrev pub is_readable : {Value : Type 0} → MockParameter Value → Bool
is_readable p = contains_byte b'r' p.access

abbrev pub is_writable : {Value : Type 0} → MockParameter Value → Bool
is_writable p = contains_byte b'w' p.access

-- `name[len(name)-1] == '.'`. Go panics on an empty name, for which this is false; scan asks it of no
-- such name, since it passes over them first.
unfoldable pub is_wildcard : Text → Bool
is_wildcard [] = false
is_wildcard (c ∷ []) = c == b'.'
is_wildcard (c ∷ d ∷ s) = is_wildcard (d ∷ s)

-- fmt's %s of a slice of texts, between its brackets
unfoldable pub spaced : List Text → Text
spaced [] = []
spaced (s ∷ []) = s
spaced (s ∷ t ∷ ts) = s ++ codes " " ++ spaced (t ∷ ts)

abbrev pub is_nil : {A : Type 0} → List A → Bool
is_nil [] = true
is_nil (_ ∷ _) = false

module _ {Value : Type 0} where
  -- the entry of a reply to GET
  unfoldable pub success : MockParameter Value → Parameter Value
  success p = record {
    name = p.name;
    value = p.value;
    data_type = p.data_type;
    attributes = p.attributes;
    message = codes "Success";
    count = pos 1;
  }

  -- an entry with a name and a message
  unfoldable pub failure : Text → Text → Parameter Value
  failure name message = record {
    name = name;
    value = [];
    data_type = pos 0;
    attributes = [];
    message = message;
    count = pos 0;
  }

  -- the inner loop of get: found, what it adds to readableParams, and to failedNames
  unfoldable pub scan :
      Text → List (MockParameter Value) → Bool × List (Parameter Value) × List Text
  scan name [] = (false, [], [])
  scan name (p ∷ ps) =
      let rest = scan name ps in
      if is_empty name || not (has_prefix p.name name)
      then rest
      else if is_readable p
      then (true, success p ∷ rest.1, rest.2)
      else if is_wildcard name
      then rest
      else (rest.0, rest.1, p.name ∷ rest.2)

  -- the outer loop of get
  unfoldable pub scan_all :
      List (MockParameter Value) → List Text → List (Parameter Value) × List Text
  scan_all ps [] = ([], [])
  scan_all ps (name ∷ names) =
      let (found, readable, failed) = scan name ps in
      let (readables, faileds) = scan_all ps names in
      (readable ++ readables, failed ++ ((if found then [] else name ∷ []) ++ faileds))

  -- the result of get, before it is rendered
  unfoldable pub get : List (MockParameter Value) → Tr181Payload Value → Tr181Payload Value
  get ps request =
      let (readable, failed) = scan_all ps request.names in
      if is_nil failed
      then record request { parameters = readable; status_code = status_ok }
      else record request {
        parameters =
            failure [] (codes "Invalid parameter names: [" ++ spaced failed ++ codes "]") ∷ [];
        status_code = status_failed;
      }

  -- the inner loop of set's first pass, from position `i` on: found, the positions of
  -- writableParams, and what it adds to failedParams
  unfoldable pub select :
      Text → ℕ → List (MockParameter Value) → Bool × List ℕ × List (Parameter Value)
  select name i [] = (false, [], [])
  select name i (p ∷ ps) =
      let rest = select name (suc i) ps in
      if not (eq_text p.name name)
      then rest
      else if is_writable p
      then (true, i ∷ rest.1, rest.2)
      else (rest.0, rest.1, failure p.name (codes "Parameter is not writable") ∷ rest.2)

  -- the outer loop of the first pass
  unfoldable pub select_all :
      List (MockParameter Value) → List (Parameter Value) → List ℕ × List (Parameter Value)
  select_all ps [] = ([], [])
  select_all ps (r ∷ rs) =
      let (found, writable, failed) = select r.name 0 ps in
      let (writables, faileds) = select_all ps rs in
      (
        writable ++ writables,
        failed
            ++ ((if found then [] else failure r.name (codes "Invalid parameter name") ∷ [])
                ++ faileds),
      )

  -- what the second pass does to a parameter
  unfoldable pub assign : MockParameter Value → Parameter Value → MockParameter Value
  assign p r = record p { value = r.value; data_type = r.data_type; attributes = r.attributes }

  -- one round of the inner loop of the second pass, for the parameter at a position
  unfoldable pub write_at :
      Parameter Value
      → ℕ
      → List (MockParameter Value)
      → List (MockParameter Value) × List (Parameter Value)
  write_at r i ps = elim (get_elem? ps i) [
    | none ↦ (ps, [])
    | some p ↦
        if eq_text p.name r.name
        then (set ps i (assign p r), record (success (assign p r)) { count = pos 0 } ∷ [])
        else (ps, [])
  ]

  -- the inner loop of the second pass, over writableParams
  unfoldable pub write :
      Parameter Value
      → List ℕ
      → List (MockParameter Value)
      → List (MockParameter Value) × List (Parameter Value)
  write r [] ps = (ps, [])
  write r (i ∷ writable) ps =
      let (qs, reply) = write_at r i ps in
      let (qs', replies) = write r writable qs in (qs', reply ++ replies)

  -- the outer loop of the second pass
  unfoldable pub write_all :
      List ℕ
      → List (Parameter Value)
      → List (MockParameter Value)
      → List (MockParameter Value) × List (Parameter Value)
  write_all writable [] ps = (ps, [])
  write_all writable (r ∷ rs) ps =
      let (qs, replies) = write r writable ps in
      let (qs', replies') = write_all writable rs qs in (qs', replies ++ replies')

  -- set: the parameters after it, and its result before it is rendered
  unfoldable pub set_parameters :
      List (MockParameter Value)
      → Tr181Payload Value
      → List (MockParameter Value) × Tr181Payload Value
  set_parameters ps request =
      let (writable, failed) = select_all ps request.parameters in
      let (qs, replies) =
        write_all (if is_nil failed then writable else []) request.parameters ps in
      (
        qs,
        record request {
          parameters = failed ++ replies;
          status_code = if is_nil failed then status_accepted else status_failed;
        },
      )
