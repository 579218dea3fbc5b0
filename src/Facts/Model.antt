-- ===== src/Facts/Model.antt =====
-- internal/queue/fact_index_store.go and author_fact.go: facts, the entries that hold them, and the
-- tables of one scope. A time is a number of nanoseconds, and a zero `time.Time` is `none`.
use gitops_reverser.Base.{
  ℕ, ◌+◌, String, ◌≡◌, ◌↔◌, Bool, true, false, not, ◌&&◌, Option, none, some, List, [], ◌∷◌, ◌++◌,
  EqType, arith, ltb, if◌then◌else◌, string_eq, is_some,
}
use mathlib.Core.Option
use text.Mathlib.Text.{◌==◌ as text_eq}
use text.Mathlib.TextEquality.{eq_iff}
use gitops_reverser.Base.Lists.{contains}
use gitops_reverser.Base.Table.{Table, get, put, has, is_empty}

pub record AuthorFact : Type 0 where
  pub namespace : String
  pub uid : String
  pub name : String
  pub author : String
  pub display_name : String
  pub email : String
  pub verb : String
  pub audit_id : String
  pub resource_version : String
  pub stage_timestamp : String
  pub label_selector : String
  pub uids : List String

pub record ExactFactKey : Type 0 where
  pub uid : String
  pub rv : String

abbrev pub exact_beq : ExactFactKey → ExactFactKey → Bool
exact_beq a b = text_eq a.uid b.uid && text_eq a.rv b.rv

pub exact_beq_iff : (a b : ExactFactKey) → (exact_beq a b ≡ true) ↔ (a ≡ b)
exact_beq_iff a b = ground (arith, eq_iff a.uid b.uid, eq_iff a.rv b.rv)

instance unfoldable pub exact_eq : EqType ExactFactKey
exact_eq = record { beq = exact_beq; beq_iff = exact_beq_iff }

pub record NameFactKey : Type 0 where
  pub namespace : String
  pub name : String

abbrev pub name_beq : NameFactKey → NameFactKey → Bool
name_beq a b = text_eq a.namespace b.namespace && text_eq a.name b.name

pub name_beq_iff : (a b : NameFactKey) → (name_beq a b ≡ true) ↔ (a ≡ b)
name_beq_iff a b = ground (arith, eq_iff a.namespace b.namespace, eq_iff a.name b.name)

instance unfoldable pub name_key_eq : EqType NameFactKey
name_key_eq = record { beq = name_beq; beq_iff = name_beq_iff }

pub record IndexedFact : Type 0 where
  pub fact : AuthorFact
  pub at : ℕ
  pub seq : ℕ

-- `Selector` is the label selector of apimachinery
pub record IndexedCollection (Selector : Type 0) : Type 0 where
  pub fact : AuthorFact
  pub at : ℕ
  pub seq : ℕ
  pub stage : Option ℕ
  pub selector : Option Selector
  pub invalid_selector : Bool
  pub uids : List String

-- what a reference in the insertion order points at, by its kind
pub data FactRef : Type 0 where
  exact : ExactFactKey → ℕ → FactRef
  latest : String → ℕ → FactRef
  removal : String → ℕ → FactRef
  rv : String → ℕ → FactRef
  name : NameFactKey → ℕ → FactRef
  collection : ℕ → FactRef

pub record ScopeFacts (Selector : Type 0) : Type 0 where
  pub exact : Table ExactFactKey IndexedFact
  pub latest : Table String IndexedFact
  pub removals : Table String IndexedFact
  pub rv_only : Table String IndexedFact
  pub by_name : Table NameFactKey IndexedFact
  pub collections : List (IndexedCollection Selector)
  pub order : List FactRef
  pub count : ℕ

-- A GroupResource is its group and its resource.
pub record FactQuery : Type 0 where
  pub audit_route : String
  pub group_resource : String × String
  pub uid : String
  pub resource_version : String
  pub namespace : String
  pub labels : Table String String
  pub name : String
  pub exact_capable : Bool

unfoldable pub live_fact : Option IndexedFact → ℕ → Option AuthorFact
live_fact none cutoff = none
live_fact (some entry) cutoff = if ltb entry.at cutoff then none else some entry.fact

-- `count` goes up when the key is new
abbrev pub counted : Bool → ℕ → ℕ
counted present n = if present then n else n + 1

-- the instant from which the window runs
abbrev pub staged_at : Option ℕ → ℕ → ℕ
staged_at none at = at
staged_at (some stage) at = stage

-- what apimachinery and the standard library provide: the parser of a label selector, its match on
-- the labels of an object, and the parser of an RFC 3339 time stamp
pub record Externals (Selector : Type 0) : Type 0 where
  pub parse_selector : String → Option Selector
  pub selector_matches : Selector → Table String String → Bool
  pub parse_stamp : String → Option ℕ

module _ {Selector : Type 0} where
  unfoldable pub new_scope_facts : ScopeFacts Selector
  new_scope_facts = record {
    exact = [];
    latest = [];
    removals = [];
    rv_only = [];
    by_name = [];
    collections = [];
    order = [];
    count = 0;
  }

  unfoldable pub put_exact :
      String → String → IndexedFact → ScopeFacts Selector → ScopeFacts Selector
  put_exact uid r entry s =
      let key : ExactFactKey = record { uid = uid; rv = r } in
      record s {
        count = counted (has key s.exact) s.count;
        exact = put key entry s.exact;
        order = s.order ++ FactRef.exact key entry.seq ∷ [];
      }

  unfoldable pub put_latest : String → IndexedFact → ScopeFacts Selector → ScopeFacts Selector
  put_latest uid entry s = record s {
    count = counted (has uid s.latest) s.count;
    latest = put uid entry s.latest;
    order = s.order ++ FactRef.latest uid entry.seq ∷ [];
  }

  unfoldable pub put_removal : String → IndexedFact → ScopeFacts Selector → ScopeFacts Selector
  put_removal uid entry s = record s {
    count = counted (has uid s.removals) s.count;
    removals = put uid entry s.removals;
    order = s.order ++ FactRef.removal uid entry.seq ∷ [];
  }

  unfoldable pub put_rv : String → IndexedFact → ScopeFacts Selector → ScopeFacts Selector
  put_rv r entry s = record s {
    count = counted (has r s.rv_only) s.count;
    rv_only = put r entry s.rv_only;
    order = s.order ++ FactRef.rv r entry.seq ∷ [];
  }

  unfoldable pub put_name :
      String → String → IndexedFact → ScopeFacts Selector → ScopeFacts Selector
  put_name ns n entry s =
      let key : NameFactKey = record { namespace = ns; name = n } in
      record s {
        count = counted (has key s.by_name) s.count;
        by_name = put key entry s.by_name;
        order = s.order ++ FactRef.name key entry.seq ∷ [];
      }

  unfoldable pub put_collection :
      IndexedCollection Selector → ScopeFacts Selector → ScopeFacts Selector
  put_collection entry s = record s {
    collections = s.collections ++ entry ∷ [];
    order = s.order ++ FactRef.collection entry.seq ∷ [];
    count = s.count + 1;
  }

  unfoldable pub lookup_exact : String → String → ℕ → ScopeFacts Selector → Option AuthorFact
  lookup_exact uid r cutoff s = live_fact (get (record { uid = uid; rv = r }) s.exact) cutoff

  unfoldable pub lookup_latest : String → ℕ → ScopeFacts Selector → Option AuthorFact
  lookup_latest uid cutoff s = live_fact (get uid s.latest) cutoff

  unfoldable pub lookup_removal_pointer : String → ScopeFacts Selector → Option AuthorFact
  lookup_removal_pointer uid s = Option.map (λ (e : IndexedFact). e.fact) (get uid s.removals)

  unfoldable pub lookup_rv : String → ℕ → ScopeFacts Selector → Option AuthorFact
  lookup_rv r cutoff s = live_fact (get r s.rv_only) cutoff

  unfoldable pub lookup_name : String → String → ℕ → ScopeFacts Selector → Option AuthorFact
  lookup_name ns n cutoff s = live_fact (get (record { namespace = ns; name = n }) s.by_name) cutoff

  unfoldable pub covers : IndexedCollection Selector → FactQuery → ℕ → Bool
  covers c q cutoff = not (ltb c.at cutoff) && text_eq c.fact.namespace q.namespace

  unfoldable pub in_window : IndexedCollection Selector → ℕ → ℕ → Bool
  in_window c now window = not (ltb (staged_at c.stage c.at + window) now)

  -- a loop over the collections from the last to the first, up to the first that passes
  abbrev pub newest :
      (IndexedCollection Selector → Bool) → List (IndexedCollection Selector) → Option AuthorFact
  newest p [] = none
  newest p (c ∷ cs) =
      let later = newest p cs in if is_some later then later else if p c then some c.fact else none

  unfoldable pub match_collection_uid : FactQuery → ℕ → ScopeFacts Selector → Option AuthorFact
  unfolding covers
  match_collection_uid q cutoff s =
      newest (λ c. covers c q cutoff && not (is_empty c.uids) && contains q.uid c.uids)
        s.collections

module _ {Selector : Type 0} (ext : Externals Selector) where
  unfoldable pub parse_stage_timestamp : String → Option ℕ
  parse_stage_timestamp stamp = if text_eq stamp "" then none else ext.parse_stamp stamp

  unfoldable pub new_indexed_collection : AuthorFact → ℕ → ℕ → IndexedCollection Selector
  new_indexed_collection fact now seq =
      let parsed = ext.parse_selector fact.label_selector in
      let present = not (text_eq fact.label_selector "") in
      record {
        fact = fact;
        at = now;
        seq = seq;
        stage = parse_stage_timestamp fact.stage_timestamp;
        selector = if present then parsed else none;
        invalid_selector = present && not (is_some parsed);
        uids = fact.uids;
      }

  abbrev pub selects_labels : Option Selector → Table String String → Bool
  selects_labels none labels = true
  selects_labels (some sel) labels = ext.selector_matches sel labels

  unfoldable pub selects : IndexedCollection Selector → Table String String → Bool
  selects c labels = if c.invalid_selector then false else selects_labels c.selector labels

  unfoldable pub match_collection_scope :
      FactQuery → ℕ → ℕ → ℕ → ScopeFacts Selector → Option AuthorFact
  match_collection_scope q now cutoff window s =
      newest (λ c. covers c q cutoff && in_window c now window && selects c q.labels) s.collections
