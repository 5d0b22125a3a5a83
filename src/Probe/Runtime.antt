-- ===== src/Probe/Runtime.antt =====
-- internal/probe/status.go and tunnel.go, and `Reach` of internal/probe/reach.go, over what they
-- learn from outside the program.
use sing_box_helper.Prelude.{
  Bool, false, not, ◌&&◌, List, [], ◌∷◌, ◌++◌, Option, none, some, String, ◌==◌, ℤ, Result, ok, err,
  if◌then◌else◌,
}
use Prim.Native.String
use sing_box_helper.Text.{trim_space, before, atoi, itoa}

-- What the calls find: the entries of /proc with a flag for directories, the content of a file that
-- can be opened, the output of `sing-box version`, whether the interface of a name is up, the
-- outcome of curl with its output, and the failure of a dial, if it fails.
pub record Machine : Type 0 where
  pub proc : Option (List (String × Bool))
  pub open_file : String → Option String
  pub version : Option String
  pub interface : String → Option Bool
  pub curl : List String → Result (String × String) String
  pub dial : String → String → Option String

-- `Status`; `running` has the process where it runs.
pub record Status : Type 0 where
  pub running : Option ℤ
  pub version : String
  pub tun_up : Bool
  pub tun_name : String

-- What the first `Scan` of a `bufio.Scanner` finds, less the carriage return at its end.
unfoldable pub first_line : String → String
first_line s = elim (before b'\n' s) [ none ↦ s | some line ↦ line ]

-- The process of an entry of /proc, if it has the name.
unfoldable pub process_of : Machine → String → String × Bool → Option ℤ
process_of m name (entry, is_dir) = if not is_dir then none else elim (atoi entry) [
  | none ↦ none
  | some pid ↦ elim (m.open_file (String.◌++◌ "/proc/" (String.◌++◌ entry "/comm"))) [
    | none ↦ none
    | some comm ↦ if trim_space (first_line comm) == name then some pid else none
  ]
]

-- The loop of `findProcess`.
unfoldable pub first_process : Machine → String → List (String × Bool) → Option ℤ
first_process m name [] = none
first_process m name (e ∷ es) = elim (process_of m name e) [
  | some pid ↦ some pid
  | none ↦ first_process m name es
]

-- `findProcess`
unfoldable pub find_process : Machine → String → Option ℤ
find_process m name = elim m.proc [ none ↦ none | some es ↦ first_process m name es ]

-- `singBoxVersion`, with `none` for its error.
unfoldable pub sing_box_version : Machine → Option String
sing_box_version m = elim m.version [ none ↦ none | some out ↦ some (trim_space (first_line out)) ]

-- `CollectStatus`
unfoldable pub collect_status : Machine → String → Status
collect_status m tun = record {
  running = find_process m "sing-box";
  version = elim (sing_box_version m) [ none ↦ "" | some v ↦ v ];
  tun_up = elim (m.interface tun) [ none ↦ false | some up ↦ up ];
  tun_name = tun;
}

pub data ProbeError : Type 0 where
  empty_interface : ProbeError
  unsupported : String → ProbeError
  dial_failed : String → String → String → ProbeError
  curl_failed : String → String → ProbeError

-- `runCurl`, with the timeout in seconds.
unfoldable pub run_curl : Machine → ℤ → List String → Result ProbeError String
run_curl m seconds extra =
    elim (m.curl
      (("-sS" ∷ "--max-time" ∷ itoa seconds ∷ []) ++ (extra ++ ("https://api.ipify.org" ∷ [])))) [
        | err (e, out) ↦ err (curl_failed e (trim_space out))
        | ok out ↦ ok (trim_space out)
      ]

-- `DirectIP`
unfoldable pub direct_ip : Machine → ℤ → Result ProbeError String
direct_ip m seconds = run_curl m seconds []

-- `TunnelIP`
unfoldable pub tunnel_ip : Machine → String → ℤ → Result ProbeError String
tunnel_ip m iface seconds =
    if iface == "" then err empty_interface else run_curl m seconds ("--interface" ∷ iface ∷ [])

-- `net.JoinHostPort`
unfoldable pub join_host_port : String → String → String
join_host_port host port = elim (before b':' host) [
  | none ↦ String.◌++◌ host (String.◌++◌ ":" port)
  | some _ ↦ String.◌++◌ "[" (String.◌++◌ host (String.◌++◌ "]:" port))
]

-- `Reach`, with its error; the timeout is part of the outcome of the dial.
unfoldable pub reach : Machine → String → String → ℤ → Option ProbeError
reach m network host port =
    if not (network == "tcp") && not (network == "udp")
    then some (unsupported network)
    else let addr = join_host_port host (itoa port) in
      elim (m.dial network addr) [ none ↦ none | some e ↦ some (dial_failed network addr e) ]
