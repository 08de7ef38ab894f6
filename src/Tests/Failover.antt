-- ===== src/Tests/Failover.antt =====
-- A build that the primary cannot be asked for, and that the mirror does not have.
use k_dash.Base.{ℕ, suc, ◌≡◌, refl, false, none, ◌==◌, if◌then◌else◌, ok, err}
use k_dash.Runtime.{Registries}
use k_dash.Runtime.Materialize.{find_binary}
use k_dash.Runtime.Materialize.Failover.{Answers, find_binary-Answers}
use k_dash.Tests.Network.{registry, registries, unreachable, absent}

abbrev mirror_only : Registries ℕ
mirror_only = record {
  get_manifest = λ r kernel reference n. (err absent, suc n);
  pull = λ r kernel reference artifact_type n.
      ((if r.name == "main" then err unreachable else err absent), suc n);
}

missing :
    find_binary mirror_only "owner/axpy" "build-sha256-0" registries 0
    ≡ (ok (none, registry "mirror" false), 2)
unfolding find_binary
missing = refl

find_binary-Answers_example :
    Answers mirror_only "owner/axpy" "build-sha256-0" registries 0 (registry "mirror" false) none 2
find_binary-Answers_example =
    find_binary-Answers mirror_only "owner/axpy" "build-sha256-0" registries 0 none
      (registry "mirror" false) 2 missing
