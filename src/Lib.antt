-- ===== src/Lib.antt =====
-- SaveExtension, a plugin for Unreal Engine that saves and loads the state of worlds in slots
-- (Source/SaveExtension).
--
-- The program. A preset (USavePreset) says which classes of actors and components are saved and how. The
-- manager (USaveManager) keeps a list of tasks, of which the first runs: a saver turns the levels of the
-- world into records, with tasks on several threads, and writes the slot's info and data into a file; a
-- loader reads the file, brings the actors of the levels in line with the records, in one go or spread over
-- frames, and restores each actor from its record. Filters decide by the class of an object; they are baked
-- into sets of classes before use.
--
-- The files, with the code that they model.
--   Base, Base/Tests, Base/Lists, Base/Int, Base/Sets: shared names; tests, lists, integers, TSet.
--   Name: FName.
--   ClassFilter: Public/Misc/ClassFilter.h and Private/Misc/ClassFilter.cpp. Bake has the meaning of baking,
--     Merge that of merging and comparing.
--   Preset: Public/SavePreset.h, Private/SavePreset.cpp. Slots has the ids of slots.
--   LevelFilter: Public/LevelFilter.h, Private/LevelFilter.cpp. Classes has what a preset's filter saves.
--   Manager: USaveManager (Public/SaveManager.h, Private/SaveManager.cpp) and the CreatePreset of
--     Public/SaveSettings.h: its state and the making of tasks. Slots has the operations on slots, levels and
--     maps, Classes the task classes as tasks of the manager, Active and Presets the preset of a task, Results
--     what SaveSlot and LoadSlot return.
--   Events: the subscribed interfaces of USaveManager, Public/SaveExtensionInterface.h and ULifetimeComponent
--     (Public/LifetimeComponent.h, Private/LifetimeComponent.cpp). Heard has what reaches a component,
--     Lifetimes its life.
--   Tasks: USlotDataTask (Public/Serialization/SlotDataTask.h, Private/Serialization/SlotDataTask.cpp) and the
--     list of USaveManager (CreateTask, FinishTask, Tick in Private/SaveManager.cpp). The virtual methods of a
--     task are the interface Behaviour. Queue has the list as a queue, History and Invariant what holds after
--     any calls, Kept what of the state survives them, Submitted what becomes of a new task.
--   Scoped: FTaskHolder and FScopedTaskList (Public/Multithreading/ScopedTaskManager.h). Notices and History
--     have who is notified, Swap the removal by swapping.
--   Infos: FLoadSlotInfosTask (Public/Multithreading/LoadSlotInfosTask.h and
--     Private/Multithreading/LoadSlotInfosTask.cpp), and LoadInfo and LoadAllSlotInfosSync of USaveManager. Found
--     has what they find.
--   Archive, Engine, World: what is used of the engine's archives, of its objects, and of a world.
--   References: FSEArchive (Public/Serialization/SEArchive.h, Private/Serialization/SEArchive.cpp).
--   Records: Public/Serialization/Records.h, Private/Serialization/Records.cpp. Object and Actor have the
--     round trips.
--   SlotData: Public/SlotData.h, Private/SlotData.cpp, Public/Serialization/LevelRecords.h,
--     Private/Serialization/LevelRecords.cpp, and the lookups of USlotDataTask. Format has the round trip.
--   SlotInfo: Public/SlotInfo.h, Private/SlotInfo.cpp. Thumbnail has the image after a capture.
--   Files: FSaveFile in Public/FileAdapter.h and Private/FileAdapter.cpp. Format has its round trip.
--   Disk: FFileAdapter (the same files), Private/Misc/SlotHelpers.cpp and
--     Private/Multithreading/DeleteSlotsTask.cpp. Paths, RoundTrip and Delete have its theorems.
--   Actors: FMTTask_SerializeActors (Public/Serialization/MTTask_SerializeActors.h and
--     Private/Serialization/MTTask_SerializeActors.cpp). Saved has what its loop makes.
--   Saver: USlotDataTask_Saver (Public/Serialization/SlotDataTask_Saver.h and
--     Private/Serialization/SlotDataTask_Saver.cpp). Schedule has the order of the threads, Partition the split
--     into tasks, Target and Levels the records of the levels, Prepare PrepareAllLevels, Whole SerializeWorld.
--     Run has OnStart, Tick, OnFinish and SaveFile, with FSaveFileTask (Public/Multithreading/SaveFileTask.h):
--     Run/Times the played times, Run/Prepared and Run/Stored what is on the disk, Run/Waits the wait for a thumbnail.
--   Loader: USlotDataTask_Loader (Public/Serialization/SlotDataTask_Loader.h and
--     Private/Serialization/SlotDataTask_Loader.cpp). Actors has the round trip of an actor; Frames is the
--     frame-split part of one level, with InOneGo, Sync and Levels. Prepare has PrepareLevel and RespawnActors:
--     Prepare/Matched the loop over the actors, Prepare/Respawned the level afterwards. State has the fields
--     of a load, Deserialize its deserialization, at once or level by level in frames, and Run the states of
--     a load from OnStart to OnFinish, with FLoadFileTask (Public/Multithreading/LoadFileTask.h): Run/Source
--     what it reads of the file, Run/Outline what PrepareAllLevels leaves alone, Run/Keeps, Run/Phases and
--     Run/Steps what each step leaves, Run/Safety what holds in every reachable state, Run/Places and
--     Run/Ends the calls of DeserializeLevelASync.
--   Streaming: USlotDataTask_LevelSaver and USlotDataTask_LevelLoader
--     (Public/Serialization/SlotDataTask_LevelSaver.h, Public/Serialization/SlotDataTask_LevelLoader.h and
--     their sources in Private/Serialization). Shown has a level that is hidden and shown again.
--   Latent: Public/LatentActions and Private/LatentActions, and BPSaveSlot, BPLoadSlot, BPLoadAllSlotInfos and
--     BPDeleteAllSlots of USaveManager. A node is such a call in a blueprint, of which the latent manager of the
--     engine has one action at most. Outcomes has what its output is triggered with.
--   Examples: engines, archives and disks of numbers, and the theorems at concrete inputs.
-- (All paths of code are below Source/SaveExtension.)
--
-- State and operations. Records stand for structs and classes, with the fields of the source; a pointer to a
-- record of a level is the name of its level. A handler that changes state returns the new state; a failed
-- check and an archive that ends too early are `none`. Classes and tasks are numbers, a soft class pointer is a
-- path, a disk is an abstract type with the operations of the file manager. The engine (reflection, archives,
-- compression, objects' properties, the file manager, the image module) is a parameter everywhere: a record of
-- operations with the laws that the code relies on, which Examples instantiates.
--
-- Bounds and fuel. The loop over the parents of a class has as much fuel as there are classes above it. Start
-- and Finish of tasks call each other; the length of the list bounds the calls, since a task starts once. The
-- split of a level into tasks takes an actor or more in every round, and a frame passes an actor or more in
-- every round, so the number of actors is enough. FindNextAsyncLevel has fuel for its calls of itself.
-- The counts of actors and tasks are natural numbers; the float division in SerializeLevelSync is exact enough
-- below 2^24 actors.
-- DeserializeLevelASync calls itself for the next level, at most once for each level where all are loaded.
-- FScopedTaskList ticks as many tasks as it has.
--
-- Interaction. The manager's list is Tasks over the state Managed, and its tasks are a Behaviour: Saver/Run,
-- Loader/Run and Streaming are the methods of the task classes on their own state, which Manager/Classes puts
-- together. What they read or write of the manager are the fields current_info and current_data. A method that
-- crashes leaves the state there, as nothing is said of what follows. Listeners do not call the manager back.
--
-- Not modelled: logging and profiling, which do not change state; BeginDestroy of the saver and the loader,
-- which wait for a file task; the text form of a class filter; the delegates of FLevelStreamingNotifier, which pass an event on; the editor module; the tests;
-- floating point times, which are compared by a test that is given; upper and lower case in names.
pub mod Base
pub mod ClassFilter
pub mod Name
pub mod Preset
pub mod LevelFilter
pub mod Tasks
pub mod Archive
pub mod Engine
pub mod Records
pub mod Files
pub mod Disk
pub mod World
pub mod SlotData
pub mod SlotInfo
pub mod Actors
pub mod Infos
pub mod Scoped
pub mod Manager
pub mod Events
pub mod Streaming
pub mod References
pub mod Latent
pub mod Saver
pub mod Loader
pub mod Examples
