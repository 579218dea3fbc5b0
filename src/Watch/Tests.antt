-- ===== src/Watch/Tests.antt =====
-- Runs of the roll-up on concrete reports.
use gitops_reverser.Base.{ℕ, ◌≡◌, refl, false, List, [], ◌∷◌, String, string_eq, nat_eq}
use gitops_reverser.Base.Table.{get, put}
use gitops_reverser.Api.Prune.{PruneMode}
use gitops_reverser.Git.Gate.{new_resource_reference, reference_key}
use gitops_reverser.Watch.Retention.{Mark, mark_target_retention, retention_for_git_target, total}
use gitops_reverser.Watch.Latest.{marked, latest_epoch, newest, epoch_in, count_in, count_in-marked}

abbrev mark : String → ℕ → ℕ → Mark String
mark scope epoch retained = record {
  git_dest = new_resource_reference "main" "team-a";
  key = scope;
  epoch = epoch;
  mode = PruneMode.unset;
  retained = retained;
  now = 10;
}

-- the newest first: a late report of epoch 1 arrives after epoch 2 has begun
abbrev reports : List (Mark String)
reports = mark "pods" 1 9 ∷ mark "jobs" 2 3 ∷ mark "pods" 2 4 ∷ mark "pods" 1 8 ∷ []

abbrev main_key : String
main_key = reference_key (new_resource_reference "main" "team-a")

count_in-marked_example :
    (epoch_in (get main_key (marked reports)) ≡ latest_epoch main_key reports)
    × (count_in "pods" (get main_key (marked reports))
        ≡ newest main_key (latest_epoch main_key reports) "pods" reports)
count_in-marked_example = count_in-marked main_key "pods" reports

retained_sum :
    (retention_for_git_target
      (new_resource_reference "main" "team-a")
      (marked reports)).retained_documents
    ≡ 7
unfolding retention_for_git_target marked mark_target_retention total get put reference_key
    new_resource_reference
retained_sum = refl

-- the same total under the same mode asks for no refresh
late_unchanged : (mark_target_retention (mark "pods" 2 4) (marked reports)).1 ≡ false
unfolding marked mark_target_retention total get put reference_key new_resource_reference
late_unchanged = refl
