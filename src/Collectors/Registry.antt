-- ===== src/Collectors/Registry.antt =====
-- app/collectors/registry.py: the collectors by name. `fails` says of which names the start raises,
-- which leaves the new instance as it was made. A per-collector configuration stands on the class.
pub mod Watchdog
use funding_radar.Base.{
  ℕ, suc, String, Bool, true, false, not, Option, none, some, List, [], ◌∷◌, ◌++◌, ◌&&◌,
  if◌then◌else◌, get_or, length, keep, map, by_text,
}
use funding_radar.Base.Dict.{Dict, lookup, insert, erase, contains, keys}
use funding_radar.Collectors.Lifecycle.{Task, Lifecycle, idle, start, stop}

-- A class is told by its exchange_slug; `Config` is the type of configurations.
module _ (Config : Type 0) where
  pub record Instance : Type 0 where
    pub exchange_slug : String
    pub config : Config
    pub life : Lifecycle

  -- A class, with its attribute `_registry_config`.
  pub record CollectorRegistry : Type 0 where
    pub config : Config
    pub registry : Dict String String
    pub class_configs : Dict String (Option Config)
    pub instances : Dict String Instance
    pub running : Bool

  abbrev pub init : Config → CollectorRegistry
  init config = record {
    config = config;
    registry = [];
    class_configs = [];
    instances = [];
    running = false;
  }

  unfoldable pub register : String → String → Option Config → CollectorRegistry → CollectorRegistry
  register name cls config r = record r {
    registry = insert name cls r.registry;
    class_configs = insert cls config r.class_configs;
  }

  -- `getattr(cls, "_registry_config", None) or self._config`
  abbrev pub config_of : String → CollectorRegistry → Config
  config_of cls r = get_or (get_or (lookup cls r.class_configs) none) r.config

  abbrev pub made : String → CollectorRegistry → Instance
  made cls r = record { exchange_slug = cls; config = config_of cls r; life = idle }

  abbrev pub started : Bool → Instance → Instance
  started fails i = if fails then i else record i { life = start i.life }

  -- The loop of `start_all`.
  unfoldable pub start_each :
      (String → Bool) → List (String × String) → CollectorRegistry → CollectorRegistry
  start_each fails [] r = r
  start_each fails ((name, cls) ∷ entries) r =
      start_each fails entries
        (record r { instances = insert name (started (fails name) (made cls r)) r.instances })

  unfoldable pub start_all : (String → Bool) → CollectorRegistry → CollectorRegistry
  start_all fails r =
      if r.running then r else start_each fails r.registry (record r { running = true })

  -- Each instance is stopped, and none is kept.
  unfoldable pub stop_all : CollectorRegistry → CollectorRegistry
  stop_all r = if r.running then record r { instances = []; running = false } else r

  -- The instance is taken out and stopped; the new one stands last.
  abbrev pub replaced :
      (String → Bool) → String → Option String → CollectorRegistry → CollectorRegistry
  replaced fails name none r = record r { instances = erase name r.instances }
  replaced fails name (some cls) r = record r {
    instances = insert name (started (fails name) (made cls r)) (erase name r.instances);
  }

  unfoldable pub restart : (String → Bool) → String → CollectorRegistry → CollectorRegistry
  restart fails name r =
      if contains name r.instances then replaced fails name (lookup name r.registry) r else r

  abbrev pub all_done : List Task → Bool
  all_done [] = true
  all_done (t ∷ ts) = t.done && all_done ts

  abbrev pub has_tasks : List Task → Bool
  has_tasks [] = false
  has_tasks (t ∷ ts) = true

  abbrev pub is_crashed : Instance → Bool
  is_crashed i = has_tasks i.life.tasks && all_done i.life.tasks && i.life.running

  -- A look of `_watchdog` at the instances that there were when it began.
  unfoldable pub watchdog :
      (String → Bool) → List (String × Instance) → CollectorRegistry → CollectorRegistry
  watchdog fails [] r = r
  watchdog fails ((name, i) ∷ rest) r =
      watchdog fails rest (if is_crashed i then restart fails name r else r)

  pub data Status : Type 0 where
    known : Bool → ℕ → ℕ → String → Status
    registered_only : Status

  abbrev alive : List Task → ℕ
  alive [] = 0
  alive (t ∷ ts) = if t.done then alive ts else suc (alive ts)

  unfoldable pub instance_status : Dict String Instance → Dict String Status
  instance_status [] = []
  instance_status ((name, i) ∷ rest) =
      (name, known i.life.running (length i.life.tasks) (alive i.life.tasks) i.exchange_slug)
      ∷ instance_status rest

  unfoldable pub add_registered : List String → Dict String Status → Dict String Status
  add_registered [] d = d
  add_registered (name ∷ names) d =
      add_registered names (if contains name d then d else insert name registered_only d)

  unfoldable pub status : CollectorRegistry → Dict String Status
  status r = add_registered (keys r.registry) (instance_status r.instances)
