-- ===== src/Facts/Filing.antt =====
-- internal/queue/fact_index.go, `file`: the tables that one fact goes into. The keys of the waiters
-- that it wakes are not modelled.
use Prim.Native.Nat.{◌%◌, ◌^◌}
use text.Mathlib.Text.{◌==◌ as text_eq}
use gitops_reverser.Base.{
  ℕ, ◌+◌, ◌-◌, ◌≡◌, refl, Bool, true, false, not, ◌&&◌, some, arith, if◌then◌else◌, string_eq,
}
use gitops_reverser.Base.Text.{codes, equal_fold}
use gitops_reverser.Base.Table.{get-put}
use gitops_reverser.Facts.Model.{
  AuthorFact, IndexedFact, ExactFactKey, NameFactKey, ScopeFacts, Externals, FactQuery, put_exact,
  put_latest, put_removal, put_rv, put_name, put_collection, new_indexed_collection, lookup_exact,
  lookup_rv, lookup_name, exact_eq, name_key_eq,
}
use gitops_reverser.Facts.Lookup.{is_removal_verb, lookup_floor, lookup_in, lookup}

abbrev pub is_collection_verb : AuthorFact → Bool
is_collection_verb fact = equal_fold (codes fact.verb) (codes "deletecollection")

-- the counter is a uint64
abbrev pub next_seq : ℕ → ℕ
next_seq seq = (seq + 1) % 2 ^ 64

abbrev pub indexed : AuthorFact → ℕ → ℕ → IndexedFact
indexed fact now seq = record { fact = fact; at = now; seq = seq }

module _ {Selector : Type 0} where
  -- the case of a fact that has a uid, with the counter after it
  unfoldable pub file_by_uid : AuthorFact → ℕ → ℕ → ScopeFacts Selector → ScopeFacts Selector × ℕ
  unfolding is_removal_verb
  file_by_uid fact now seq s = removal (latest exact)
    where
      exact : ScopeFacts Selector × ℕ
      exact =
          if not (text_eq fact.resource_version "")
          then (
            put_exact fact.uid fact.resource_version (indexed fact now (next_seq seq)) s,
            next_seq seq,
          )
          else (s, seq)

      latest : ScopeFacts Selector × ℕ → ScopeFacts Selector × ℕ
      latest (t, n) = (put_latest fact.uid (indexed fact now (next_seq n)) t, next_seq n)

      removal : ScopeFacts Selector × ℕ → ScopeFacts Selector × ℕ
      removal (t, n) =
          if is_removal_verb fact.verb
          then (put_removal fact.uid (indexed fact now (next_seq n)) t, next_seq n)
          else (t, n)

  unfoldable pub file :
      Externals Selector → AuthorFact → ℕ → ℕ → ScopeFacts Selector → ScopeFacts Selector × ℕ
  unfolding file_by_uid
  file ext fact now seq s =
      if is_collection_verb fact
      then (put_collection (new_indexed_collection ext fact now (next_seq seq)) s, next_seq seq)
      else if not (text_eq fact.uid "")
      then file_by_uid fact now seq s
      else if not (text_eq fact.resource_version "")
      then (put_rv fact.resource_version (indexed fact now (next_seq seq)) s, next_seq seq)
      else if not (text_eq fact.name "")
      then (put_name fact.namespace fact.name (indexed fact now (next_seq seq)) s, next_seq seq)
      else (s, seq)

-- Whether a fact names the very write that a query is about: by the uid and the version, without a
-- uid by the version, and without both by the name.
unfoldable pub bears_on : AuthorFact → FactQuery → Bool
bears_on fact q =
    if is_collection_verb fact
    then false
    else if not (text_eq fact.uid "")
    then not (text_eq fact.resource_version "")
      && (text_eq fact.uid q.uid && text_eq fact.resource_version q.resource_version)
    else if not (text_eq fact.resource_version "")
    then text_eq fact.resource_version q.resource_version
    else not (text_eq fact.name "")
      && (text_eq fact.namespace q.namespace && text_eq fact.name q.name)

module _ {Selector : Type 0} (ext : Externals Selector) (fact : AuthorFact) (q : FactQuery)
    (now seq cutoff : ℕ) (s : ScopeFacts Selector) where
  lookup_exact-file :
      bears_on fact q ≡ false
      → lookup_exact q.uid q.resource_version cutoff (file ext fact now seq s).0
        ≡ lookup_exact q.uid q.resource_version cutoff s
  unfolding file bears_on lookup_exact put_exact put_latest put_removal put_rv put_name
      put_collection exact_eq
  lookup_exact-file h =
      let key : ExactFactKey = record { uid = fact.uid; rv = fact.resource_version } in
      let asked : ExactFactKey = record { uid = q.uid; rv = q.resource_version } in
      ground (arith, h, get-put key asked (indexed fact now (next_seq seq)) s.exact)

  lookup_rv-file :
      bears_on fact q ≡ false
      → lookup_rv q.resource_version cutoff (file ext fact now seq s).0
        ≡ lookup_rv q.resource_version cutoff s
  unfolding file bears_on lookup_rv put_exact put_latest put_removal put_rv put_name put_collection
  lookup_rv-file h = ground (
    arith,
    h,
    get-put fact.resource_version q.resource_version (indexed fact now (next_seq seq)) s.rv_only,
  )

  lookup_name-file :
      bears_on fact q ≡ false
      → lookup_name q.namespace q.name cutoff (file ext fact now seq s).0
        ≡ lookup_name q.namespace q.name cutoff s
  unfolding file bears_on lookup_name put_exact put_latest put_removal put_rv put_name
      put_collection name_key_eq
  lookup_name-file h =
      let key : NameFactKey = record { namespace = fact.namespace; name = fact.name } in
      let asked : NameFactKey = record { namespace = q.namespace; name = q.name } in
      ground (arith, h, get-put key asked (indexed fact now (next_seq seq)) s.by_name)

-- Filing a fact leaves the answer to a query of an added or modified object as it was, unless the
-- fact names the write in question: by its uid and resource version, by the resource version if it
-- has no uid, or by the name if it has neither. So a deletecollection never changes that answer,
-- and a fact with a uid, of a deletion or of a write, changes it only under the uid and version
-- asked.
pub lookup-file :
    {Selector : Type 0} (ext : Externals Selector) (window ttl : ℕ) (fact : AuthorFact)
    (q : FactQuery) (filed seq now : ℕ) (s : ScopeFacts Selector)
    → q.exact_capable ≡ true
    → bears_on fact q ≡ false
    → lookup ext window ttl (some (file ext fact filed seq s).0) q now
      ≡ lookup ext window ttl (some s) q now
unfolding lookup lookup_in lookup_floor
lookup-file ext window ttl fact q filed seq now s h away =
    rw
      (
        h,
        lookup_exact-file ext fact q filed seq (now - ttl) s away,
        lookup_rv-file ext fact q filed seq (now - ttl) s away,
        lookup_name-file ext fact q filed seq (now - ttl) s away,
      )
      refl
