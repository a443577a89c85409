-- ===== src/Lib.antt =====
-- Local Dictation, the desktop client: what it keeps in order between the microphone, the
-- recognition server and the cursor of another application.
--
-- The client is written in Go under client/internal. One dictation session runs like this. The
-- session controller (session/controller.go) dials a server (dial, transport), sends `start`, waits
-- for `ready`, and only then opens the microphone (audio). Every transcript event that the server
-- sends (protocol/events.go) goes to the composer (input/composer.go), which writes at the cursor of
-- whatever application has the focus through an adapter of the platform (platform/keystroke.go on
-- every system today). Text travels in two parts: `stable`, which is committed and never taken back,
-- and `partial`, which stands as a provisional tail until the next event replaces it.
--
-- Files:
--   Prelude     Boolean tests on the native numbers, conditionals, lists, signed integers.
--   Text        Go strings as lists of code points, and the functions of `strings` used on them.
--   Protocol    client/internal/protocol/events.go: messages, constants, code tables.
--   Input       client/internal/input/composer.go. Input/Platform is the interface `Platform` and its
--               contract; Input/Composer has one function per method of `Composer`, and below it
--               Safety (what no request may do), Steps, Utterance and Delivery (what one event
--               leaves), Replay (an utterance's events in any order), Abandon (what is not written).
--   Keystroke   client/internal/platform/keystroke.go over the interface `typer`; Keystroke/Laws fills the
--               contract of Input/Platform, Keystroke/Cursor puts the two together.
--   Session     client/internal/session. Session/Phase is state.go, Session/Controller has one function
--               per method of `Controller`; below: Quiet (steps that open and close nothing), Rest
--               (what is open between two calls), Outcome (`Start`), Closing (`Stop`), Ended
--               (compositions), Lost (dropped connections and late events).
--   Settings    client/internal/config/config.go (Settings/Config and Settings/Validate) with
--               localserver/backend.go (Settings/Backend); Settings/Validity is what `Validate` lets
--               pass, Settings/Loading what is filled in, Settings/Saving `SaveTo` and
--               Settings/Saving/Whole what it leaves.
--   Audio       client/internal/audio/gain.go: Audio/Gain, and below Audio the samples of a frame and
--               the range of the multiplier.
--   Update      client/internal/update/update.go: Update/Version is the comparison of versions,
--               Update/Order and Update/Release what it means; Update/Manifest the signed manifest
--               and the check, Update/Trust what they have seen; Update/Download and Update/Kept the
--               download and what it leaves on the disk. Update/Github, Sums, Latest and Assets are
--               github.go; Update/Pinned and Update/Repository what its check and its names have seen.
--   LocalServer client/internal/localserver/manager.go: LocalServer/Manager, and in LocalServer/Current
--               the settings that the servers were started with. LocalServer/Starting, Waiting, Stopping
--               and Log are server.go, Detector is detector.go, Python is python.go, Folder the search
--               for the server's folder.
--   Models      client/internal/models: Models/Catalogue, Models/Install (with Names, the files of a
--               repository, and Folder, the directory), Models/Single (a model that is one file) and
--               Models/Scan; Models/Staged, Models/Whole and Models/Found are what an installation
--               leaves. Models/Scan also has the rows of ui/models_tab.go.
--   Hotkey      client/internal/hotkey: Hotkey/Keys, Hotkey/Manager; Hotkey/Single its invariant.
--   Dial        client/internal/dial, with Dial/Health for the probe; Dial/Secure and Dial/Reaches are what
--               it connects to.
--   Commands    client/cmd/sign-manifest: Commands/Sign, and Commands/Published for what clients accept.
--               client/cmd/local-dictation: Commands/Check is `runCheck`, Commands/Check/Ability what its
--               exit code means.
--   Window      client/internal/ui: Window/Form is what the settings tab shows and collects,
--               Window/Collected that the two agree, Window/Apply is `ApplySettings`, Window/Updating
--               the Update button, Window/Models the note on a model's directory, Window/Main the main
--               tab (Window/Main/Choice: the language), Window/Disabled the adapter that writes nothing.
--   Singleton   client/internal/singleton on systems other than Windows, a step for each system call;
--               Singleton/Exclusive is what a run of several copies keeps.
--   Transport   `DecodeServerEvent` of protocol/events.go and the read loop of transport/client.go, both
--               under client/internal.
--   Tests       concrete inputs for the theorems, a typer that fails where a script says so.
--
-- How the code is read:
--   - A string is the list of its code points. The strings come out of JSON documents, which Go
--     decodes to valid UTF-8, so prefixes and rune boundaries are those of the lists.
--   - `Composer`'s methods hold its mutex throughout, so each is one step from a state to a state and
--     an error. The state is the composer's record and the world of the platform.
--   - `int` and `int64` counters of the composer wrap at 2 ^ 64; a revision is a signed integer.
--   - What the operating system does is a parameter: a typer is any record of calls on any world.
--     `TyperLaws` states what is relied on: a call that succeeds does all it is asked, and a call
--     that fails does nothing.
--   - The controller's calls come one after the other, with the events of the session between them, and,
--     inside `Start` and `Stop`, as arguments; what the outside answers is an argument too. Its state
--     carries a log of what it does to the server, the microphone and the context. After an abort, or a
--     stop whose time is over, events of the old session may still come, up to the next start.
--   - A float64 gain is a fraction with a power of two below, which every finite one is; ports and
--     thread counts are signed integers, as JSON may hold any. `runtime.GOOS` and the decoding of JSON
--     are arguments.
--   - The update check takes the network, JSON, base64, ed25519 and SHA-256 as a record of functions;
--     the file system of a download is a map from paths to contents.
--   - The directory of models, and the files while settings are saved, are kept with all their earlier
--     states, the newest first, so that a theorem can say what another program sees at any moment.
--   - `wait_ready` is recursion on fuel, one for each round of its `select`; LocalServer/Waiting has the
--     theorem that it returns where the fuel is more than the rounds up to the end of the process or
--     of the time. All other loops are structural.
--   - Processes, the file system's answers and the operating system's are arguments or records of
--     functions; the lock of Singleton is a relation on the steps of any number of processes.
--   - Of the toolkit it is relied on that a drop-down list selects a value that is among its options and
--     ignores any other, and that a group of radio buttons shows the label it is given.
--   - The removal of a file or a folder is taken to succeed, but for the temporary file of the settings
--     (Settings/Saving), where its answer is an argument.
--
-- Not modelled: the layout and looks of the windows, the light, the level meter and the tray (ui);
-- capture through the audio library and its level; the operating system's calls (key events, focus,
-- the registration of a hotkey, the named mutex of Windows), whose answers are arguments where a
-- modelled function uses them; the socket's other calls (transport); reports of progress; the text of
-- the script that restarts the application after an update; the commands that make a key and print a
-- hash; the build and release scripts; and the recognition server, which is written in Python.
pub mod Prelude
pub mod Text
pub mod Protocol
pub mod Input
pub mod Keystroke
pub mod Session
pub mod Settings
pub mod Audio
pub mod Update
pub mod Models
pub mod LocalServer
pub mod Hotkey
pub mod Transport
pub mod Dial
pub mod Commands
pub mod Window
pub mod Singleton
mod Tests
