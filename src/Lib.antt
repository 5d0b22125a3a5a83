-- ===== src/Lib.antt =====
-- Verification of singbox-helper, a Go program for routers: it turns the URI of a proxy node into
-- the config.json of sing-box, applies it, keeps backups of the old files, and serves a web page.
--
-- The program's parts, and the modules that model them:
--   * internal/parser is Parser. `parse` is Parse; Parser/Hysteria, Parser/Vless and Parser/Socks
--     hold one function for each scheme's parser, split at the steps of the Go function, and
--     Parser/Types the types of types.go.
--   * internal/config is Config: Config/Settings for settings.go, Config/Types for types.go,
--     Config/Encode for the struct tags by which encoding/json writes these types, and
--     Config/Render for render.go. `render_json` gives the JSON value that Render marshals. yaml.go
--     is in State, for it saves its file in the way of state.go.
--   * internal/web/readback.go is Readback: the decoding of config.json and the choice of the
--     outbound that is in use. `summary_outbound` is the choice of summarise in backup.go.
--   * internal/backup is Backup, and internal/state is State, both over the files of Files.
--   * internal/logbuf is Logbuf, where a buffer is a record and a write a function on it.
--   * internal/web/server.go and handlers.go are Web: the record Server, and a handler as a function
--     of the method, the decoded body, the server and the disk. Web/Nodes has the status, preview
--     and apply pages, Web/Preferences the settings page, Web/History the two pages of backups,
--     Web/Journal the page of logs, and Web/Diagnostics the page that runs the checks.
--     Web/Routes is Handler, from the path of a request to its handler, and Web/Routes/Served the
--     server under any sequence of requests. Web/Requests has the steps of the server, and
--     Web/Requests/Overlapped the requests that write config.json, as turns of the overlapping
--     writers of Backup/Writers.
--   * internal/probe is Probe: lanip.go and ProtoNetwork, with status.go, tunnel.go and Reach in
--     Probe/Runtime.
--   * cmd/singbox-helper/main.go is Cli: `main` from the parsed flags to the exit code, and Cli/Pump
--     for the goroutine that copies the standard error into the log buffer.
-- Parse gives Render its node, Render's file is read back by the status page and by the list of
-- backups, Create saves that file before it is overwritten, and Restore puts one back. Apply parses,
-- renders, backs up, writes, restarts, and stores the state that the status page compares with the
-- file. The command line parses, renders, backs up and writes on its own path.
--
-- Parameters, for code that is not in the repository:
--   * Platform holds url.Parse, url.QueryUnescape, net.ParseIP, unicode.ToLower outside ASCII,
--     exec.LookPath and the output of the command ip. `LowersScheme` says that url.Parse returns
--     the scheme in lower case.
--   * Codec holds the contents of files with the encoders of JSON and YAML for them. `IsLawful`
--     says that a document which was marshalled is read back.
--   * Machine, in Outside, holds what the probes find: the entries of /proc, the outputs of
--     `sing-box version` and of curl, the network interfaces and the outcome of a dial. Console
--     holds the output of ndmc and the format of the clock, and Terminal the standard output, the
--     requests that reach a server that listens, and the end of ListenAndServe.
--   * Faults decides which calls of the file system fail, and how much a write that stops leaves.
-- Text, Paths and Stamp write out what the program uses of strings, path/filepath and time, and
-- Files the calls of os on regular files.
--
-- Conventions and bounds:
--   * A text is a list of code points. It stands for the UTF-8 of the source.
--   * An error, a note or a warning is a constructor with the values that its text shows.
--   * An int is 64 bits wide: `atoi` and the decoder of numbers refuse what is outside.
--   * The loop of Buffer.Write is `drain`, on fuel. Each round takes a line break from the pending
--     bytes, so one more than their number is enough. That of `itoa` takes a digit off in each round.
--   * sort.Slice leaves the order of equal moments open. `sort_entries` fixes one.
--   * A disk is an association list from clean paths to contents. Directories are not part of it,
--     symbolic links and permissions are left out, and no other process writes to it.
--   * An array that stands twice in a JSON document is decoded afresh each time.
--   * One request is handled at a time, but for the writers of Backup/Writers. There a Create is one
--     step, a writer of config.json can write any number of pieces behind its Create, and a Save, a
--     Trim and a Delete are one step each. `Phases` allows more runs than the handlers make, and
--     Backup/Writers/Turn has the order of one writer. That two saves of the settings or of the
--     state can overlap in their temporary file is left out.
--   * Settings and states can always be marshalled, so that Save and SaveSettings do not have the
--     error of the encoder.
--   * Decoders holds encoding/json on the bodies of requests. A path that is not registered is left
--     to the file server and net/http, which change nothing of the program's.
--   * The moments of time.Now and the run of the init script are arguments. Elapsed times are left
--     out, and so are lines that are longer than the buffer of a bufio.Scanner.
--
-- Not modelled: the encoding of the responses, the redirects of http.ServeMux and the static files,
-- which hold no decision of the program; Tee, which nothing calls; the embedded assets and the
-- packaging, which hold no Go logic.
pub mod Prelude
pub mod Logbuf
pub mod Text
pub mod Platform
pub mod Parser
pub mod Json
pub mod Probe
pub mod Config
pub mod Readback
pub mod Paths
pub mod Stamp
pub mod Files
pub mod Cli
pub mod Codec
pub mod Backup
pub mod State
pub mod Web
mod Examples
