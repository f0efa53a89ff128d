-- ===== src/Lib.antt =====
-- smart-build, the build system of RT-Thread Smart: a Python program under src/smart_build that
-- turns a machine, a root file system and a selection of packages into a graph of tasks, orders
-- it, runs it behind a cache of input signatures, and packs what was built.
--
-- Tasks (src/smart_build/tasks.py). A task is a record of its fields. `Tasks.Task.post_init` is
-- `Task.__post_init__`; `Tasks.Graph` follows `TaskGraph`, whose dicts with task ids as keys are
-- functions of the id. The `while` loop of `topological_order` runs on fuel: each round places a
-- task that was not placed before, so as many rounds as there are tasks are enough, and the
-- theorems show that the fuel never ends. `Tasks.Graph.Greedy` is an independent description of
-- the order, and the modules beside it prove the loop equal to it. `Tasks.Closure` is
-- `_dependency_closure` and the end of `tasks_for_target`, which selects from the order what a
-- target needs. `Tasks.Default` is `create_default_plan` and `tasks_for_target` as they run with
-- `resolve_real=False`, where every task is a placeholder; the tasks of an application or a
-- package target are an argument.
--
-- Walks. `_dependency_closure` and the function `include` in `resolve_package_selection` are the
-- same depth-first walk; `Prelude.Walk` states it once, on fuel for the depth: a call goes deeper
-- only with a name that was not met, so one more than the number of names is enough.
--
-- Scheduler (src/smart_build/scheduler.py, src/smart_build/cache.py). `Scheduler.Batches` is
-- `plan_batches`, on fuel as above, since a batch is never empty. `Scheduler.Cache` is the class
-- `Cache` with the records of paths; the disk is a function from paths to nodes, the stamps are a
-- function from names of stamp files, and SHA-256 over JSON text is a parameter.
-- `Scheduler.Display` is `_BuildDisplay` with the text of its stream. `Scheduler.Run` is `run`
-- with its helpers: a world of disk, stamps, logs and display is passed through, and returned
-- also where the code raises. Commands, executors, `mkdir`, `open` and the writes of stamps are
-- functions of the record `Host`, so that the theorems hold for whatever they do: a write of a
-- stamp may raise, and may leave a broken stamp behind, and the write of the status that follows
-- it may raise too. Any other write to a log that is open, or to the stream of the display, does
-- not raise in the model.
--
-- Packages (src/smart_build/package_metadata.py, src/smart_build/package_resolver.py).
-- `Packages.Symbols` makes Kconfig symbols; what the text methods of Python do with characters is
-- the parameter `Chars`. `Packages.Resolver` is the resolution of a selection: providers, version
-- requirements, conflicts, versions and options. It starts from the list that
-- `load_all_package_metadata` returns, which refuses a name that occurs twice.
-- `Packages.Dependencies` follows the two functions of src/smart_build/tasks.py that find the
-- dependencies of a package among the selected ones.
--
-- Images (src/smart_build/domains/image.py). Sizes are natural numbers, as Python's integers do
-- not wrap around. The images directory is a function from paths to what stands there, the image
-- command is a parameter.
--
-- Configuration (src/smart_build/config.py). `Config` holds the checks of the root file system
-- settings: image format, size and mode, build mode, package mode, and the packages of a profile.
-- `int` of a text is a parameter, and a description is what its YAML file holds.
--
-- Package files (src/smart_build/domains/ipkg.py). Texts and bytes are lists of numbers, with the
-- text methods of Python in `Prelude.Codes`, and a dict is the list of its entries in the order
-- of insertion. `Ipkg.Ar` is the `ar` container of `_write_ar` and `_read_ar`; the loop over the
-- bytes runs on fuel, and as a member is at least as long as its header, one more than the number
-- of bytes is enough. `Ipkg.Paths` is `_safe_relative_path` with the names made from it,
-- `Ipkg.Control` the text of control files and of the stanzas of the status file, and
-- `Ipkg.Database` the class `IpkgDatabase` over its status file and its lists. `Ipkg.Package` is
-- `create_ipkg` and `read_control_fields`; UTF-8, gzip and tar are the record `Formats`, and
-- `Ipkg.Toy` is one that keeps what it is given. `Ipkg.Sources` is the expansion of the files
-- that a package is made of, and `Ipkg.Executor` the executors of the tasks that pack, over the
-- package that stood there, the fields `files` and `checksum` of the manifest and the log; the
-- write of the package may break off and leave a part of it (`Writing`). `Ipkg.Files` is a disk
-- of places, which are lists of names, and `Ipkg.Install` is `install_ipkg` on it, with the
-- rollback of both handlers. The record `Host` gives how links resolve, the writes that fail, and
-- checksums. An installation makes no link, and removes none but one that is named like a
-- temporary file; places are resolved as the links stood at its start, and where the rollback
-- then finds the path of a created file cut off, as a link on it is gone, `leads` of `Host` says
-- so and the file is left. A directory is never taken back by the code. `Ipkg.Runtime` installs
-- and removes with the data base, whose files are kept apart from the places that packages are
-- installed to, and can be read.
--
-- Not modelled: reading YAML, the command line, the menus, the import of Buildroot packages, and
-- the tasks that compose command lines for the compilers, the kernel and BusyBox. Of
-- domains/ipkg.py, the task records around the executors that pack.
pub mod Prelude
pub mod Tasks
pub mod Scheduler
pub mod Packages
pub mod Images
pub mod Config
pub mod Ipkg
