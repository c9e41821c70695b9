-- ===== src/Core/Claim.antt =====
-- crates/core/src/claim.rs: the data of the working state.
use contextd.Prelude.{ℕ, Bool, true, false, Option, none, some, List, [], ◌∷◌, ◌==◌, if◌then◌else◌}
use contextd.Prelude.Int.{ℤ}
use contextd.Text.{Text, str, text_eq}

abbrev pub max_claim_text : ℕ
max_claim_text = 500

abbrev pub intent_subject : Text
intent_subject = str "objective"

abbrev pub frontier_subject : Text
frontier_subject = str "frontier"

pub data ClaimOp : Type 0 where
  assert supersede close_task : ClaimOp

pub data ClaimKind : Type 0 where
  reality intent decision constraint ruled_out unknown next_action : ClaimKind

pub data ClaimStatus : Type 0 where
  current superseded : ClaimStatus

pub data ClaimConfidence : Type 0 where
  observed stated inferred hypothesis : ClaimConfidence

pub data ClaimOrigin : Type 0 where
  projector user agent : ClaimOrigin

pub data TaskStatus : Type 0 where
  active done : TaskStatus

abbrev kind_tag : ClaimKind → ℕ
kind_tag reality = 0
kind_tag intent = 1
kind_tag decision = 2
kind_tag constraint = 3
kind_tag ruled_out = 4
kind_tag unknown = 5
kind_tag next_action = 6

-- The derived `==` of the enums.
unfoldable pub kind_eq : ClaimKind → ClaimKind → Bool
kind_eq a b = kind_tag a == kind_tag b

abbrev pub is_current : ClaimStatus → Bool
is_current current = true
is_current superseded = false

abbrev pub is_active : TaskStatus → Bool
is_active active = true
is_active done = false

unfoldable pub origin_eq : ClaimOrigin → ClaimOrigin → Bool
origin_eq projector projector = true
origin_eq user user = true
origin_eq agent agent = true
origin_eq _ _ = false

-- `ClaimKind::as_str`, `ClaimOrigin::as_str`
unfoldable pub kind_str : ClaimKind → Text
kind_str reality = str "reality"
kind_str intent = str "intent"
kind_str decision = str "decision"
kind_str constraint = str "constraint"
kind_str ruled_out = str "ruled_out"
kind_str unknown = str "unknown"
kind_str next_action = str "next_action"

unfoldable pub origin_str : ClaimOrigin → Text
origin_str projector = str "projector"
origin_str user = str "user"
origin_str agent = str "agent"

unfoldable pub confidence_str : ClaimConfidence → Text
confidence_str observed = str "observed"
confidence_str stated = str "stated"
confidence_str inferred = str "inferred"
confidence_str hypothesis = str "hypothesis"

-- `ClaimKind::parse`, `ClaimOrigin::parse`, `ClaimConfidence::parse`: `serde` reads the variant
-- whose name in snake case is the text, and that name is what `as_str` writes.
abbrev read_as : {A : Type 0} → (A → Text) → Text → List A → Option A
read_as write value [] = none
read_as write value (a ∷ rest) =
    let later = read_as write value rest in if text_eq value (write a) then some a else later

unfoldable pub kind_parse : Text → Option ClaimKind
kind_parse value =
    read_as kind_str value
      (reality ∷ intent ∷ decision ∷ constraint ∷ ruled_out ∷ unknown ∷ next_action ∷ [])

unfoldable pub origin_parse : Text → Option ClaimOrigin
origin_parse value = read_as origin_str value (projector ∷ user ∷ agent ∷ [])

unfoldable pub confidence_parse : Text → Option ClaimConfidence
confidence_parse value =
    read_as confidence_str value (observed ∷ stated ∷ inferred ∷ hypothesis ∷ [])

unfoldable pub confidence_eq : ClaimConfidence → ClaimConfidence → Bool
confidence_eq observed observed = true
confidence_eq stated stated = true
confidence_eq inferred inferred = true
confidence_eq hypothesis hypothesis = true
confidence_eq _ _ = false

-- `unique_slot`: at most one current claim for each task and subject
unfoldable pub unique_slot : ClaimKind → Bool
unique_slot reality = true
unique_slot intent = true
unique_slot next_action = true
unique_slot _ = false

pub record ClaimEvent : Type 0 where
  pub op : ClaimOp
  pub claim_id : Text
  pub task_id : Text
  pub kind : Option ClaimKind
  pub subject : Option Text
  pub text : Option Text
  pub confidence : Option ClaimConfidence
  pub origin : ClaimOrigin
  pub outcome : Option ℤ
  pub artifact_refs : List Text
  pub evidence_ids : List Text
  pub supersedes : Option Text

pub record Task : Type 0 where
  pub id : Text
  pub status : TaskStatus
  pub opened_by_event_id : Text
  pub closed_by_event_id : Option Text
  pub created_at_ms : ℕ
  pub updated_at_ms : ℕ

pub record Claim : Type 0 where
  pub id : Text
  pub task_id : Text
  pub kind : ClaimKind
  pub subject : Text
  pub status : ClaimStatus
  pub confidence : ClaimConfidence
  pub origin : ClaimOrigin
  pub text : Text
  pub outcome : Option ℤ
  pub artifact_refs : List Text
  pub evidence_ids : List Text
  pub supersedes : Option Text
  pub asserted_by_event_id : Text
  pub updated_at_ms : ℕ
