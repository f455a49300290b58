-- ===== src/Tests/Data.antt =====
-- Concrete values: a store, a registry, and what the world answers to a start.
use dovik.Prelude.{pos, ◌≡◌, ◌≢◌, refl, Bool, true, false, Option, none, some, List, [], ◌∷◌}
use dovik.Supervision.State.{ProcessRuntime, running, zero_runtime}
use dovik.Supervision.Registry.{ProjectDefinition, ProcessDefinition, Registry}
use dovik.Supervision.Encoding.{as_read}
use dovik.Supervision.Document
use dovik.Supervision.Document.{RegistryDocument, registry_to_document}
use dovik.Supervision.Persister.{Persister, Fault, not_written, not_flushed}
use dovik.Supervision.Manager.{ProcessKey, Manager}
use dovik.Supervision.Lifecycle.Start.{StartInput}
use dovik.Supervision.Lifecycle.Exit.{ProcessExit}

-- A store in memory, with the faults that its next saves meet.
abbrev pub MemoryDisk : Type 0
MemoryDisk = List Bool × Option RegistryDocument

abbrev pub save_document :
    List Bool
    → Option RegistryDocument
    → Document.Result RegistryDocument
    → MemoryDisk × Option Fault
save_document [] old (Document.err e) = (([], old), some not_written)
save_document [] old (Document.ok d) = (([], some (as_read d)), none)
save_document (true ∷ fs) old (Document.ok d) = ((fs, old), some not_written)
save_document (false ∷ fs) old (Document.ok d) = ((fs, some (as_read d)), none)
save_document (f ∷ fs) old (Document.err e) = ((fs, old), some not_written)

pub saved_document :
    (fs : List Bool) (old : Option RegistryDocument) (r : Document.Result RegistryDocument)
    → (save_document fs old r).1 ≡ none
    → (document : RegistryDocument) × (r ≡ Document.ok document)
      × ((save_document fs old r).0.1 ≡ some (as_read document))
saved_document [] old (Document.err e) h = absurd (cc h)
saved_document [] old (Document.ok d) h = (d, refl, refl)
saved_document (true ∷ fs) old (Document.ok d) h = absurd (cc h)
saved_document (false ∷ fs) old (Document.ok d) h = (d, refl, refl)
saved_document (f ∷ fs) old (Document.err e) h = absurd (cc h)

pub kept_document :
    (fs : List Bool) (old : Option RegistryDocument) (r : Document.Result RegistryDocument)
    → (save_document fs old r).1 ≡ some not_written
    → (save_document fs old r).0.1 ≡ old
kept_document [] old (Document.err e) h = refl
kept_document [] old (Document.ok d) h = absurd (cc h)
kept_document (true ∷ fs) old (Document.ok d) h = refl
kept_document (false ∷ fs) old (Document.ok d) h = absurd (cc h)
kept_document (b ∷ fs) old (Document.err e) h = refl

pub flushed_document :
    (fs : List Bool) (old : Option RegistryDocument) (r : Document.Result RegistryDocument)
    → (save_document fs old r).1 ≢ some not_flushed
flushed_document [] old (Document.err e) h = absurd (cc h)
flushed_document [] old (Document.ok d) h = absurd (cc h)
flushed_document (true ∷ fs) old (Document.ok d) h = absurd (cc h)
flushed_document (false ∷ fs) old (Document.ok d) h = absurd (cc h)
flushed_document (b ∷ fs) old (Document.err e) h = absurd (cc h)

abbrev pub memory : Persister
memory = record {
  Disk = MemoryDisk;
  save = λ d r. save_document d.0 d.1 (registry_to_document (some r));
  stored = λ d. d.1;
  save_ok = λ d r h. saved_document d.0 d.1 (registry_to_document (some r)) h;
  save_failed = λ d r h. kept_document d.0 d.1 (registry_to_document (some r)) h;
  save_unflushed = λ d r h. absurd (flushed_document d.0 d.1 (registry_to_document (some r)) h);
}

abbrev pub web : ProcessKey
web = record { project_id = "shop"; process_id = "web" }

abbrev pub web_definition : ProcessDefinition
web_definition = record {
  project_id = "shop";
  id = "web";
  command = "serve";
  arguments = "-p" ∷ "80" ∷ [];
  working_directory = "app";
  environment_overrides = none;
}

-- the runtime that a daemon left behind
abbrev pub left_runtime : ProcessRuntime
left_runtime = record zero_runtime {
  project_id = "shop";
  process_id = "web";
  instance_id = "one";
  pid = some (pos 7);
  state = running;
  started_at = some 3;
}

abbrev pub shop_definition : ProjectDefinition
shop_definition = record { id = "shop"; root_directory = "/srv/shop" }

abbrev pub shop : Option ProcessRuntime → Registry
shop runtime = record {
  projects =
      (
        "shop",
        some (record {
          definition = shop_definition;
          processes =
              ("web", some (record { definition = web_definition; runtime = runtime })) ∷ [];
        }),
      )
      ∷ [];
}

abbrev pub shop_manager : Registry → MemoryDisk → Manager memory
shop_manager registry disk = record {
  registry = registry;
  disk = disk;
  active = [];
  outputs = [];
  runtimes = [];
  observers = [];
  output_byte_limit = pos 100;
  output_event_limit = pos 10;
  effects = [];
}

abbrev pub web_input : StartInput
web_input = record {
  instance_id = some "two";
  inherited = "HOME=/root" ∷ [];
  launch = λ _. some (pos 8);
  started_at = 20;
  failed_at = 21;
}

abbrev pub clean_exit : ProcessExit
clean_exit = record { code = pos 0; error = none }
