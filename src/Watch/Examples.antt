-- ===== src/Watch/Examples.antt =====
-- The theorems on running workspaces at two pods.
use sandcastle.Prelude.{◌≡◌, ◌↔◌, refl, true, false, some, [], ◌∷◌, codes, str_eq, In}
use sandcastle.Prelude.Assoc.{get}
use sandcastle.Prelude.Sort.{sort}
use sandcastle.Policy.Rules.{Workspace}
use sandcastle.Cilium.Render.{ws_label}
use sandcastle.Watch.{Pod, Runs, label, is_skipped, workspace, listed, running, by_ip, In-running}

abbrev box : Pod
box = record {
  labels = (ws_label, codes "w1") ∷ [];
  phase = codes "Running";
  pod_ip = codes "10.0.0.1";
  deleting = false;
}

abbrev leaving : Pod
leaving = record {
  labels = (ws_label, codes "w2") ∷ [];
  phase = codes "Running";
  pod_ip = codes "10.0.0.2";
  deleting = true;
}

abbrev box_workspace : Workspace
box_workspace = record { id = codes "w1"; name = []; owner_id = []; ip = codes "10.0.0.1" }

box-Runs : Runs box box_workspace
unfolding workspace label get codes str_eq
box-Runs = record {
  shown = refl;
  has_id = λ e. absurd (cc);
  phase = refl;
  has_ip = λ e. absurd (cc);
  stays = refl;
}

found : by_ip (codes "10.0.0.1") (leaving ∷ box ∷ []) ≡ some box_workspace
unfolding by_ip running listed is_skipped workspace label get codes str_eq sort
found = refl

In-running_example :
    In box_workspace (running (leaving ∷ box ∷ []))
    ↔ ((pod : Pod) × In pod (leaving ∷ box ∷ []) × Runs pod box_workspace)
In-running_example = In-running box_workspace (leaving ∷ box ∷ [])
