-- ===== src/Lib.antt =====
-- Tink: workflows of actions that workers run to provision machines. A user gives a template
-- (workflow/template_validator.go); the server renders it for a machine and keeps the workflow, either
-- as a custom resource of a Kubernetes cluster or in a SQL database. A worker asks for the contexts of
-- its workflows, gets the list of actions, runs them, and reports the status of each; the report moves
-- the workflow on. A controller starts new custom resources and times out those that run too long.
--
-- The parts and their files:
--   Template          workflow/types.go, template_validator.go and funcs.go: Template.Validate is
--                     `validate`, Template.Render is `Parse` and `RenderTemplateHardware`. The decoders,
--                     the template engine and the image reference parser are the record Engine.
--   Proto             the messages of protos/workflow/workflow.proto that the other parts exchange,
--                     and those of protos/hardware and protos/template.
--   V1alpha1          pkg/apis/core/v1alpha1: the custom resource of a workflow, the scan for its current
--                     action, and the resources of templates and hardware (V1alpha1.Resources).
--   Convert           pkg/convert/workflow.go: template to status, resource to messages and back, and
--                     pkg/convert/template.go (Convert.Templates).
--   Controllers       pkg/controllers/manager.go (Controllers.Index: the field indexes that the server
--                     lists by) and pkg/controllers/workflow/controller.go (Controllers.Workflow).
--   Kube              server/kubernetes_api_workflow.go: Kube.Context is `getWorkflowContext`, Kube.Modify
--                     is `modifyWorkflowState`, Kube.Handlers the handlers, over a client of the cluster.
--   Db                db/workflow.go over the tables of db/migration: Db.Data the versions of a workflow's
--                     data, Db.State its context, its actions and its events, Db.Create
--                     `CreateWorkflow`, with the walk over a Go map as a parameter, Db.Delete
--                     `DeleteWorkflow`, Db.Workflows the lookup, the listing, the update and the events;
--                     db/hardware.go with `getWorkerID` (Db.Hardware) and db/template.go (Db.Template).
--                     What the types jsonb, uuid and bytea of the database give back for a
--                     text, and which texts they refuse, are parameters.
--                     In Db.Create the lookup of a worker is a parameter, which
--                     DbServer.Workflow.Workers sets to `getWorkerID` over a hardware table.
--   DbServer          the services over Db: server/dbserver_worker_workflow.go (DbServer.Worker),
--                     dbserver_workflow.go (DbServer.Workflow, and DbServer.Status for
--                     `getWorkflowState`), dbserver_template.go (DbServer.Template) and
--                     dbserver_hardware.go (DbServer.Hardware). The watchers of `DeprecatedWatch` are the
--                     steps of DbServer.Hardware.Watch: goroutines that share the map `watch` and its
--                     channels, each step being what one of them does at once. NewDBServer leaves the
--                     map nil, so that no watcher gets so far.
--   Worker            cmd/tink-worker/worker: the loop over the actions of worker.go (Worker), `execute`
--                     with the waits of container_manager.go (Worker.Execute), the data file of a
--                     workflow (Worker.DataFile), the steps around it that can end the process
--                     (Worker.Steps, which the loop takes as a parameter, DataSteps), the calls of
--                     Docker with registry.go (Worker.Docker), and the worker together
--                     with the database server (Worker.Reporting and the modules that use it).
--   Cli               cmd/tink-cli/cmd: the progress of a workflow and the requests of the commands.
--   Virtual           cmd/virtual-worker: the sleeps of its container manager.
--   Prelude           numbers, strings, lists, results of Go calls, int64 and time.
--   Tests             runs of the definitions, and the theorems at concrete inputs.
--
-- A Go call is an Outcome: a value, an error, or a panic, which an index out of range and a nil
-- dereference cause. A database call takes the answers of database/sql to its statements as a parameter
-- (Faults), and a transaction that fails leaves the tables as they were. The calls of the cluster's
-- client are parameters (the two records Client). A time is its distance in nanoseconds from the Unix
-- epoch; durations wrap around as int64, and the elapsed seconds saturate as `Time.Sub` does. The
-- readings of the controller's clock are parameters too, one for each place that reads it. An int32
-- version is its bit pattern; an action index is a natural number, since no code makes it negative.
-- Every loop is a recursion on the list that it ranges over; only the printing of a number runs on fuel,
-- one more than the number, which is more than its digits.
--
-- The worker's waits between retries have no counterpart; the Docker client is a parameter. A write to
-- the worker's data file and its reading are whole or end the worker; the log of an error of a write that
-- the code goes on after is left out, and so is the part of the file that it may have written.
--
-- Not modelled: the flags and prints of the command line, the listeners, the
-- random ids of the virtual worker, the metadata of a hardware resource, and generated code. Logs,
-- counters and the texts that wrap an error are left out, since nothing reads them.
mod Prelude
pub mod Template
pub mod Proto
pub mod V1alpha1
pub mod Convert
pub mod Controllers
pub mod Kube
pub mod Db
pub mod DbServer
pub mod Worker
pub mod Virtual
pub mod Cli
mod Tests
