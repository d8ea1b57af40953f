-- ===== src/GroundControl/Harbor/Simulated.antt =====
-- A Harbor in memory, which keeps its contract: accounts, secrets and images are functions.
use harbor_satellite.Common.{
  Option, String, [], ap, arith, eq_refl, eqb, eqb_iff, if◌then◌else◌, none, pos, refl, some, suc,
  true, ℕ, ◌==◌, ◌∙◌, ◌≡◌,
}
use harbor_satellite.GroundControl.Harbor.{Content, Harbor, Robot, RobotCreate}
use harbor_satellite.GroundControl.Harbor.Contract.{HarborLaws}

pub record Sim : Type 0 where
  pub robots : ℕ → Option Robot
  pub secrets : ℕ → Option String
  pub images : String → Option Content
  pub next_id : ℕ

abbrev pub put : {A : Type 0} → ℕ → Option A → (ℕ → Option A) → ℕ → Option A
put i v f j = if eqb i j then v else f j

abbrev pub put_text : {A : Type 0} → String → Option A → (String → Option A) → String → Option A
put_text a v f b = if a == b then v else f b

abbrev made : RobotCreate → ℕ → Robot
made t id = record { id = id; name = t.name; expires_at = pos 0; permissions = t.permissions }

abbrev named : ℕ → Option Robot → Option Robot
named i none = none
named i (some d) = some (record d { id = i })

abbrev refreshed : ℕ → Option Robot → Sim → Sim × Option (Option String)
refreshed i none r = (r, none)
refreshed i (some d) r =
    (record r { secrets = put i (some "fresh") r.secrets }, some (some "fresh"))

abbrev deleted : ℕ → Option Robot → Sim → Sim × Option (Unit {0})
deleted i none r = (r, none)
deleted i (some d) r = (record r { robots = put i none r.robots }, some tt)

abbrev removed : String → Option Content → Sim → Sim × Option (Unit {0})
removed a none r = (r, none)
removed a (some image) r = (record r { images = put_text a none r.images }, some tt)

abbrev pub simulated : Harbor
simulated = record {
  Remote = Sim;
  Image = Content;
  image = λ content. some content;
  latest = λ a r. r.images a;
  robot = λ i r. named i (r.robots i);
  secret = λ i r. r.secrets i;
  list_robot = λ name r. some [];
  list_replication_policies = λ name r. some 1;
  head_project = λ name r. some true;
  get_robot_by_id = λ i r. named i (r.robots i);
  create_project = λ name r. (r, some true);
  create_robot = λ t r. (
    record r { robots = put r.next_id (some (made t r.next_id)) r.robots; next_id = suc r.next_id },
    some (record { id = r.next_id; name = t.name; secret = "first"; expires_at = pos 0 }),
  );
  delete_robot = λ i r. deleted i (r.robots i) r;
  update_robot = λ d r. (record r { robots = put d.id (some d) r.robots }, some tt);
  refresh_sec = λ i r. refreshed i (r.robots i) r;
  push = λ a image r. (record r { images = put_text a (some image) r.images }, some tt);
  tag = λ a t r. (r, some tt);
  delete_repository = λ a r. removed a (r.images a) r;
}

named_self : (i : ℕ) (o : Option Robot) (d : Robot) → named i o ≡ some d → d.id ≡ i
named_self i none d h = cc
named_self i (some x) d h = ground arith

put_self : {A : Type 0} (i : ℕ) (v : Option A) (f : ℕ → Option A) → put i v f i ≡ v
put_self i v f = rw ((eqb_iff i i).1 refl) refl

refreshed_self :
    (i : ℕ) (o : Option Robot) (s : String) (r : Sim)
    → (refreshed i o r).1 ≡ some (some s)
    → (refreshed i o r).0.secrets i ≡ some s
refreshed_self i none s r h = cc
refreshed_self i (some d) s r h = put_self i (some "fresh") r.secrets ∙ cc h

refreshed_missing :
    (i : ℕ) (o : Option Robot) (r : Sim)
    → named i (r.robots i) ≡ none
    → named i o ≡ none
    → ((refreshed i o r).1 ≡ none) × (named i ((refreshed i o r).0.robots i) ≡ none)
refreshed_missing i none r gone h = (refl, gone)
refreshed_missing i (some d) r gone h = cc

deleted_self :
    (i : ℕ) (o : Option Robot) (r : Sim)
    → (deleted i o r).1 ≡ some tt
    → named i ((deleted i o r).0.robots i) ≡ none
deleted_self i none r h = cc
deleted_self i (some d) r h = ap (named i) (put_self i none r.robots)

deleted_missing :
    (i : ℕ) (o : Option Robot) (r : Sim)
    → named i (r.robots i) ≡ none
    → named i o ≡ none
    → ((deleted i o r).1 ≡ none) × (named i ((deleted i o r).0.robots i) ≡ none)
deleted_missing i none r gone h = (refl, gone)
deleted_missing i (some d) r gone h = cc

removed-robots : (a : String) (o : Option Content) (r : Sim) → (removed a o r).0.robots ≡ r.robots
removed-robots a none r = refl
removed-robots a (some x) r = refl

pub simulated-laws : HarborLaws simulated
simulated-laws = record {
  get_robot = λ i r d found. (found, named_self i (r.robots i) d found);
  update_robot_self = λ d r done. ap (named d.id) (put_self d.id (some d) r.robots);
  update_robot_ne = λ d i r ne. ground (arith, eqb_iff d.id i, ne);
  update_robot-latest = λ d a r. refl;
  refresh_sec_self = λ i s r done. refreshed_self i (r.robots i) s r done;
  refresh_sec_missing = λ i r gone. refreshed_missing i (r.robots i) r gone gone;
  delete_robot_self = λ i r done. deleted_self i (r.robots i) r done;
  delete_robot_missing = λ i r gone. deleted_missing i (r.robots i) r gone gone;
  create_project-robot = λ p i r. refl;
  push_self = λ a image r done. rw (eq_refl a) refl;
  push-robot = λ a image i r. refl;
  push-secret = λ a image i r. refl;
  tag-latest = λ a t b r. refl;
  tag-robot = λ a t i r. refl;
  tag-secret = λ a t i r. refl;
  delete_repository-robot =
      λ a i r. ap (λ (f : ℕ → Option Robot). named i (f i)) (removed-robots a (r.images a) r);
}
