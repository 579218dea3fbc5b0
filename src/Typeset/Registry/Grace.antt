-- ===== src/Typeset/Registry/Grace.antt =====
-- Removals are slow: a live type that discovery stops reporting stays live for the whole removal
-- grace, over any number of updates, and the first update past it drops the type.
use mathlib.Core.Path.{subst}
use gitops_reverser.Base.{ℕ, ◌-◌, ◌<◌, ◌≤◌, ◌≡◌, String, true, none, some, ap, ◌∙◌, List, [], ◌∷◌}
use gitops_reverser.Base.Table.{get}
use gitops_reverser.Base.Lists.{All}
use gitops_reverser.Typeset.Model.{Gvr, is_followable}
use gitops_reverser.Typeset.Funnel.{Observation}
use gitops_reverser.Typeset.Lifecycle.{RecordKey, key_eq, Entry, removal_grace, lifecycle_step}
use gitops_reverser.Typeset.Registry.{Registry, absent_from, retained_entry, update}
use gitops_reverser.Typeset.Registry.Retention.{
  IsWellFormed, retained_entry-within, retained_entry-expired,
}
use gitops_reverser.Typeset.Registry.Published.{
  stepped, reported, lifecycle_step-keeps, get-update, update-IsWellFormed,
}

pub record Round : Type 0 where
  pub observations : List Observation
  pub generation : ℕ
  pub now : ℕ

module _ (gvr_text : Gvr → String) where
  abbrev pub run : List Round → Registry → Registry
  run [] r = r
  run (x ∷ rounds) r = run rounds (update gvr_text x.observations x.generation x.now r).0

-- the key is live although it has not been reported since the time `since`
abbrev pub HeldSince : RecordKey → ℕ → Registry → Type 0
HeldSince k since r =
    (e : Entry) × (get k r.entries ≡ some e)
    × (is_followable e.type_record ≡ true)
    × (e.absent_since ≡ some since)

-- a round that does not report the key, inside the grace
abbrev pub Withholds : RecordKey → ℕ → Round → Type 0
Withholds k since x =
    (reported x.observations x.generation k ≡ none) × (x.now - since < removal_grace)

module _ (gvr_text : Gvr → String) (k : RecordKey) (r : Registry) (x : Round) where
  absent-update :
      (e : Entry)
      → IsWellFormed r.entries
      → get k r.entries ≡ some e
      → reported x.observations x.generation k ≡ none
      → get k (update gvr_text x.observations x.generation x.now r).0.entries
        ≡ stepped (some e) (retained_entry e x.now x.generation) x.now x.generation
  absent-update e w p h =
      get-update gvr_text x.observations x.generation x.now r k w.distinct ∙ rw (p, h)

  pub update-HeldSince :
      (e : Entry)
      → IsWellFormed r.entries
      → get k r.entries ≡ some e
      → is_followable e.type_record ≡ true
      → reported x.observations x.generation k ≡ none
      → x.now - absent_from e.absent_since x.now < removal_grace
      → HeldSince k
          (absent_from e.absent_since x.now)
          (update gvr_text x.observations x.generation x.now r).0
  update-HeldSince e w p live h within =
      let (e', stays, live', since', _) =
        retained_entry-within k e x.now x.generation (w.consistent k e p) live within in
      let (_, same_record, same_since) = lifecycle_step-keeps (some e) e' x.now x.generation in
      (
        (lifecycle_step (some e) e' x.now x.generation).0,
        absent-update e w p h ∙ rw stays,
        rw same_record live',
        same_since ∙ since',
      )

  pub update-drops :
      (e : Entry)
      → IsWellFormed r.entries
      → get k r.entries ≡ some e
      → reported x.observations x.generation k ≡ none
      → removal_grace ≤ x.now - absent_from e.absent_since x.now
      → get k (update gvr_text x.observations x.generation x.now r).0.entries ≡ none
  update-drops e w p h past =
      absent-update e w p h
      ∙ rw (retained_entry-expired k e x.now x.generation (w.consistent k e p) past)

-- In a well-formed table, a live type that went absent at the time `since` is still live after
-- every series of updates that do not report it and that all run less than 60 seconds after
-- `since`.
pub absence_held :
    (gvr_text : Gvr → String) (k : RecordKey) (since : ℕ) (rounds : List Round) (r : Registry)
    → IsWellFormed r.entries
    → HeldSince k since r
    → All (Withholds k since) rounds
    → HeldSince k since (run gvr_text rounds r)
unfolding absent_from
absence_held gvr_text k since [] r w held quiet = held
absence_held gvr_text k since (x ∷ rounds) r w (e, p, live, s) ((h, within), rest) =
    absence_held gvr_text k since rounds _
      (update-IsWellFormed gvr_text x.observations x.generation x.now r w)
      (subst (λ t. HeldSince k t (update gvr_text x.observations x.generation x.now r).0)
        (ap (λ o. absent_from o x.now) s)
        (update-HeldSince gvr_text k r x e w p live h (rw s within)))
      rest

-- In a well-formed table, a live type that went absent at the time `since` may miss any number of
-- updates that run less than 60 seconds after it; then the first update that does not report it and
-- runs 60 seconds or more after `since` removes it from the table.
pub absence_expires :
    (gvr_text : Gvr → String) (k : RecordKey) (since : ℕ) (rounds : List Round) (r : Registry)
    (x : Round)
    → IsWellFormed r.entries
    → HeldSince k since r
    → All (Withholds k since) rounds
    → reported x.observations x.generation k ≡ none
    → removal_grace ≤ x.now - since
    → get k (run gvr_text (x ∷ []) (run gvr_text rounds r)).entries ≡ none
unfolding absent_from
absence_expires gvr_text k since [] r x w (e, p, live, s) quiet h past =
    update-drops gvr_text k r x e w p h (rw s past)
absence_expires gvr_text k since (y ∷ rounds) r x w held quiet h past =
    absence_expires gvr_text k since rounds _ x
      (update-IsWellFormed gvr_text y.observations y.generation y.now r w)
      (absence_held gvr_text k since (y ∷ []) r w held (quiet.0, tt)) (quiet.1) h past
