-- ===== src/Lib.antt =====
-- SmartSim's infrastructure: how the steps of an experiment are launched, watched and stopped.
--
-- The program's parts and their files:
-- - Dragon: the backend that runs inside an allocation (smartsim/_core/launcher/dragon/
--   dragonBackend.py, with the requests and responses of smartsim/_core/schemas). Dragon/State has its
--   data, Dragon/Policies the admission of requests (`_can_honor`) and the process groups that are
--   built, Dragon/Stop, Dragon/Start and Dragon/Refresh the methods `_stop_steps`, `_start_steps` and
--   `_refresh_statuses`, Dragon/Shutdown `_update`, the cooldown and the loop of the update thread, and
--   Dragon/Server the constructor and the handlers of `process_request`. The four methods of a round of
--   the update thread each take a lock by themselves, so that requests may come between them: a run of
--   the server (`history`) is a list of requests, whole rounds (`tick`) and single methods (`method`).
--   The proofs stand in Dragon/Hosts (who has which host), Dragon/Lifecycle (the statuses
--   of a step and the shutdown), Dragon/Failures (exceptions of the runtime),
--   Dragon/Admission (`_can_honor`) and Dragon/Cooldown (the end of the loop).
-- - Launcher: the statuses of the workload managers (smartsim/_core/launcher/stepInfo.py) in
--   Launcher/StepInfo, the map from step names to ids (stepMapping.py) in Launcher/StepMapping, what a
--   launcher tells of its steps (launcher.py, `get_step_update`) in Launcher/Updates, and the parsers
--   of command output (slurm/slurmParser.py, pbs/pbsParser.py, lsf/lsfParser.py, sge/sgeParser.py) in
--   Launcher/Slurm, Launcher/Pbs, Launcher/Lsf and Launcher/Sge.
-- - Control: a job and its history (smartsim/_core/control/job.py) in Control/Job, the job manager
--   (jobmanager.py) in Control/Manager and, for databases and interrupts, Control/Databases, and the
--   launch and the stop of an entity by the controller (controller.py) in Control/Controller. The
--   manager holds jobs in three dicts, asks a launcher for the steps' statuses in each round of its
--   thread, and moves the jobs that are over. What it needs of a launcher is `IsLauncher` of
--   Control/Manager/Rounds, which Control/Manager/Launchers states of `get_step_update`.
-- - Schemas: the registries of message classes (smartsim/_core/schemas/utils.py) and those of the
--   Dragon protocol (dragonRequests.py, dragonResponses.py), in Schemas and Schemas/Protocol.
-- - Tasks: the task manager (smartsim/_core/launcher/taskManager.py), which watches the processes that
--   no workload manager has. What it tells is the parameter of Launcher/Updates; Tasks/Reported joins
--   the two.
-- - Wlm: the launchers of the local machine (smartsim/_core/launcher/local/local.py) in Wlm/Local, of
--   Slurm (slurm/slurmLauncher.py) in Wlm/Slurm and of LSF (lsf/lsfLauncher.py) in Wlm/Lsf. They start
--   and remove tasks of Tasks, note the steps in the map of Launcher/StepMapping, and read the answers
--   of sacct, jslist and bjobs by the parsers of Launcher/Slurm and Launcher/Lsf. The proofs stand in
--   Wlm/Stops, Wlm/Starts, Wlm/Cancels, Wlm/Restored, Wlm/Lsf/Kills and Wlm/Lsf/Restored.
-- - Ensembles: the strategies (smartsim/entity/strategies.py) in Ensembles/Strategies, models
--   (model.py) in Ensembles/Models, and ensembles (ensemble.py) in Ensembles/Groups and
--   Ensembles/Attachments.
-- - Settings: the settings of a run and of a batch job (smartsim/settings/base.py, slurmSettings.py):
--   Settings/Base, Settings/Srun, Settings/Sbatch and the wall time in Settings/Walltime. The
--   reader of command lines in Settings/Options is a reference that the formats are held against.
-- - Status has smartsim/status.py, and Common the shared names, Python's str and dict operations.
--
-- How the model is made:
-- - A text is a list of code points and a dict an association list in insertion order. A method is a
--   function from the state to the state; an exception is a value of the result. Times are readings of
--   the clock in whole units, which the caller gives.
-- - The Dragon runtime is a `World` for each call: what it answers to a launch, to a question for a
--   group's state or a return code, and which calls raise. It is healthy (`IsHealthy`) if the PUIDs of
--   each launched group can be read and its redirect workers start. The names of psutil's statuses, the
--   answers of a launcher and the path of salloc are parameters as well.
-- - Loops over lists are structural recursion. The update loop and the monitoring loops run for as many
--   rounds as the caller lists. Fuel is used twice: str(n) takes n rounds, which are enough because each
--   divides by ten, and a round of the task manager takes as many turns as there are tasks, which are
--   enough because each turn moves one position on in a list that only shrinks.
-- - What psutil tells of the processes is a record for each call (`Processes`), what pydantic makes of
--   objects is the record `Pydantic`, and random.sample is a function that is given.
-- - A conversion of a set to a list has one of the orders that Python leaves open.
--
-- Not modelled: of the Dragon backend, what happens between the parts of one handler (a shutdown
-- request sets its flag before it takes the lock, twice), exceptions of kill and stop other than
-- DragonProcessGroupError, those of reading a group's state, and those of starting redirect workers
-- other than IOError; sockets, processes, files, logs and tables of text; the parsers that stand on
-- JSON and XML; commands that raise because they fail; the launchers of PBS and SGE; the settings of
-- other managers than Slurm; the launch of databases, telemetry, the command line and the
-- installation.
pub mod Common
pub mod Status
pub mod Schemas
pub mod Tasks
pub mod Ensembles
pub mod Settings
pub mod Wlm
pub mod Dragon
pub mod Launcher
pub mod Control
