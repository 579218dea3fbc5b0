-- ===== src/Git/Window.antt =====
-- The open window as the last event of each file, in the order in which the files were first seen.
use gitops_reverser.Base.{
  ℕ, ◌≡◌, refl, sym, ap, ◌∙◌, ◌||◌, Option, none, some, List, [], ◌∷◌, ◌++◌, ◌==◌, if◌then◌else◌,
  is_some, arith, Bool-cases, inl, inr,
}
use gitops_reverser.Base.Lists.{contains, any-append, onto_some, append_nil, append_assoc}
use gitops_reverser.Base.Table.{Table, get, has, get-put, has-put}
use gitops_reverser.Base.Text.{codes_eq}
use gitops_reverser.Paths.Identifier.{SensitiveResourcePolicy}
use gitops_reverser.Git.Model.{
  Event, OpenWindow, new_open_window, window_path_key, add, events_at, ordered_events,
}

module _ {Object : Type 0} (policy : SensitiveResourcePolicy) where
  unfoldable pub add_all : List (Event Object) → OpenWindow Object → OpenWindow Object
  add_all [] w = w
  add_all (e ∷ es) w = add_all es (add policy e w)

  -- the last event of the file, if any
  unfoldable pub last_of : List ℕ → List (Event Object) → Option (Event Object)
  last_of k [] = none
  last_of k (e ∷ es) =
      let later = last_of k es in
      if is_some later then later else if window_path_key policy e == k then some e else none

  -- the files, each where it comes first
  unfoldable pub first_files : List (List ℕ) → List (Event Object) → List (List ℕ)
  first_files seen [] = []
  first_files seen (e ∷ es) =
      let k = window_path_key policy e in
      let known = first_files seen es in
      let fresh = first_files (k ∷ seen) es in if contains k seen then known else k ∷ fresh

  -- the last event of each of the files
  unfoldable pub last_events : List (List ℕ) → List (Event Object) → List (Event Object)
  last_events [] es = []
  last_events (k ∷ ks) es = onto_some (last_of k es) (last_events ks es)

  get-add_all :
      (es : List (Event Object)) (w : OpenWindow Object) (k : List ℕ)
      → get k (add_all es w).path_to_event
        ≡ (let last = last_of k es in if is_some last then last else get k w.path_to_event)
  unfolding add_all last_of add
  get-add_all [] w k = refl
  get-add_all (e ∷ es) w k = ground (
    arith,
    get-add_all es (add policy e w) k,
    get-put (window_path_key policy e) k e w.path_to_event,
  )

  first_files_seen :
      (s t : List (List ℕ)) (es : List (Event Object))
      → ((k : List ℕ) → contains k s ≡ contains k t)
      → first_files s es ≡ first_files t es
  unfolding first_files
  first_files_seen s t [] h = refl
  first_files_seen s t (e ∷ es) h =
      let k = window_path_key policy e in
      rw
        (
          h k,
          first_files_seen s t es h,
          first_files_seen (k ∷ s) (k ∷ t) es (λ j. ap (λ b. k == j || b) (h j)),
        )
        refl

  -- the keys of the events are those of the order
  abbrev IsOrdered : OpenWindow Object → Type 0
  IsOrdered w = (k : List ℕ) → has k w.path_to_event ≡ contains k w.path_order

  add-IsOrdered :
      (e : Event Object) (w : OpenWindow Object) → IsOrdered w → IsOrdered (add policy e w)
  unfolding add
  add-IsOrdered e w h k = ground (
    arith,
    h k,
    h (window_path_key policy e),
    has-put (window_path_key policy e) k e w.path_to_event,
    any-append (λ j. j == k) w.path_order (window_path_key policy e ∷ []),
    codes_eq.beq_iff (window_path_key policy e) k,
  )

  path_order-add :
      (e : Event Object) (w : OpenWindow Object)
      → IsOrdered w
      → (add policy e w).path_order ≡ (
          if contains (window_path_key policy e) w.path_order
          then w.path_order
          else w.path_order ++ (window_path_key policy e ∷ []))
  unfolding add
  path_order-add e w h = ground (arith, h (window_path_key policy e))

  path_order-add_all :
      (es : List (Event Object)) (w : OpenWindow Object)
      → IsOrdered w
      → (add_all es w).path_order ≡ w.path_order ++ first_files w.path_order es
  unfolding add_all first_files
  path_order-add_all [] w h = sym (append_nil w.path_order)
  path_order-add_all (e ∷ es) w h =
      let k = window_path_key policy e in
      path_order-add_all es (add policy e w) (add-IsOrdered e w h)
      ∙ rw (path_order-add e w h) (elim (Bool-cases (contains k w.path_order)) [
        | inl known ↦ rw known refl
        | inr fresh ↦ rw fresh (
            append_assoc w.path_order (k ∷ []) (first_files (w.path_order ++ (k ∷ [])) es)
            ∙ ap (λ ks. w.path_order ++ (k ∷ ks))
                (first_files_seen (w.path_order ++ (k ∷ [])) (k ∷ w.path_order) es
                  (λ j. ground (arith, any-append (λ i. i == j) w.path_order (k ∷ [])))))
      ])

  events_at-last :
      (m : Table (List ℕ) (Event Object)) (es : List (Event Object)) (ks : List (List ℕ))
      → ((k : List ℕ) → get k m ≡ last_of k es)
      → events_at m ks ≡ last_events ks es
  unfolding events_at last_events
  events_at-last m es [] h = refl
  events_at-last m es (k ∷ ks) h = rw (h k, events_at-last m es ks h) refl

  -- A new window to which events are added, in order, holds the last event of each file, in the
  -- order in which the files were first seen.
  pub ordered_events-add_all :
      (first : Event Object) (es : List (Event Object))
      → ordered_events (add_all es (new_open_window first)) ≡ last_events (first_files [] es) es
  unfolding ordered_events new_open_window
  ordered_events-add_all first es =
      let w : OpenWindow Object = new_open_window first in
      rw (path_order-add_all es w (λ k. unfold get in refl)) (
        events_at-last (add_all es w).path_to_event es (first_files [] es)
          (λ k. get-add_all es w k ∙ unfold get in ground arith))
