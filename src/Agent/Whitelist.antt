-- ===== src/Agent/Whitelist.antt =====
-- crates/pact-agent/src/shell/whitelist.rs: the commands that exec and the shell allow.
pub mod Updates
use pact.Base.{
  ℕ, String, String_eq, Bool, true, false, not, ◌&&◌, Option, none, some, List, [], ◌∷◌, ◌++◌,
  contains, if◌then◌else◌,
}
use pact.Base.Map.{Map, lookup, insert, contains_key, map_values}
use pact.Base.Parts.{split}

pub record WhitelistEntry : Type 0 where
  pub command : String
  pub state_changing : Bool
  pub description : String
  pub binary_path : Option String

pub record WhitelistManager : Type 0 where
  pub exec_whitelist : Map String WhitelistEntry
  pub shell_whitelist : Map String WhitelistEntry
  pub learning_mode : Bool
  pub denied_commands : List String

-- Each default with its flag and description.
abbrev pub defaults : List (String × Bool × String)
defaults =
    ("nvidia-smi", false, "NVIDIA GPU status and diagnostics")
    ∷ ("rocm-smi", false, "AMD GPU status and diagnostics")
    ∷ ("echo", false, "Print arguments")
    ∷ ("dmesg", false, "Kernel ring buffer")
    ∷ ("lspci", false, "PCI device listing")
    ∷ ("lsmod", false, "Loaded kernel modules")
    ∷ ("lsblk", false, "Block device listing")
    ∷ ("lscpu", false, "CPU information")
    ∷ ("uname", false, "System information")
    ∷ ("hostname", false, "Show hostname")
    ∷ ("uptime", false, "System uptime")
    ∷ ("free", false, "Memory usage")
    ∷ ("df", false, "Disk usage")
    ∷ ("mount", true, "Mount operations (can mount filesystems)")
    ∷ ("ps", false, "Process listing")
    ∷ ("top", false, "Process monitor")
    ∷ ("htop", false, "Interactive process monitor")
    ∷ ("ip", true, "Network configuration")
    ∷ ("ss", false, "Socket statistics")
    ∷ ("ping", false, "Network connectivity test")
    ∷ ("traceroute", false, "Network path tracing")
    ∷ ("ethtool", false, "Network interface details")
    ∷ ("cat", false, "Display file contents")
    ∷ ("head", false, "Display first lines")
    ∷ ("tail", false, "Display last lines")
    ∷ ("wc", false, "Word/line count")
    ∷ ("ls", false, "List directory contents")
    ∷ ("stat", false, "File status")
    ∷ ("file", false, "File type identification")
    ∷ ("md5sum", false, "Compute MD5 checksum")
    ∷ ("sha256sum", false, "Compute SHA-256 checksum")
    ∷ ("diff", false, "Compare files")
    ∷ ("grep", false, "Search file contents")
    ∷ ("journalctl", false, "Systemd journal viewer")
    ∷ ("sysctl", true, "Kernel parameter query/set")
    ∷ ("systemctl", true, "Service management")
    ∷ ("modprobe", true, "Load kernel module")
    ∷ ("umount", true, "Unmount filesystem")
    ∷ []

abbrev pub entry : String → Bool → String → WhitelistEntry
entry command state_changing description = record {
  command = command;
  state_changing = state_changing;
  description = description;
  binary_path = none;
}

unfoldable pub load_from : List (String × Bool × String) → WhitelistManager → WhitelistManager
load_from [] m = m
load_from ((command, state_changing, description) ∷ rest) m = load_from rest (record m {
  exec_whitelist = insert command (entry command state_changing description) m.exec_whitelist;
  shell_whitelist = insert command (entry command state_changing description) m.shell_whitelist;
})

unfoldable pub load_defaults : WhitelistManager → WhitelistManager
load_defaults m = load_from defaults m

unfoldable pub new : Bool → WhitelistManager
new learning_mode = load_defaults (record {
  exec_whitelist = [];
  shell_whitelist = [];
  learning_mode = learning_mode;
  denied_commands = [];
})

unfoldable pub is_exec_allowed : String → WhitelistManager → Bool
is_exec_allowed command m = contains_key command m.exec_whitelist

unfoldable pub is_state_changing : String → WhitelistManager → Bool
is_state_changing command m = elim (lookup command m.exec_whitelist) [
  | none ↦ false
  | some e ↦ e.state_changing
]

unfoldable pub is_shell_allowed : String → WhitelistManager → Bool
is_shell_allowed command m = contains_key command m.shell_whitelist

unfoldable pub record_denied : String → WhitelistManager → WhitelistManager
record_denied command m =
    if m.learning_mode && not (contains m.denied_commands command)
    then record m { denied_commands = m.denied_commands ++ command ∷ [] }
    else m

unfoldable pub clear_denied : WhitelistManager → WhitelistManager
clear_denied m = record m { denied_commands = [] }

-- The loop of both updates, on one of the two lists.
unfoldable pub add_commands : List String → Map String WhitelistEntry → Map String WhitelistEntry
add_commands [] entries = entries
add_commands (command ∷ commands) entries = add_commands commands (
    if contains_key command entries
    then entries
    else insert command (entry command false "Added from vCluster policy") entries)

unfoldable pub update_exec_whitelist : List String → WhitelistManager → WhitelistManager
update_exec_whitelist commands m = record m {
  exec_whitelist = add_commands commands m.exec_whitelist;
}

unfoldable pub update_shell_whitelist : List String → WhitelistManager → WhitelistManager
update_shell_whitelist commands m = record m {
  shell_whitelist = add_commands commands m.shell_whitelist;
}

-- The file system and `Path::join`.
pub record Files : Type 0 where
  pub path_join : String → String → String
  pub exists : String → Bool

unfoldable pub find_binary : Files → String → List String → Option String
find_binary files command [] = none
find_binary files command (dir ∷ dirs) =
    if files.exists (files.path_join dir command)
    then some (files.path_join dir command)
    else find_binary files command dirs

unfoldable pub resolve : Files → List String → WhitelistEntry → WhitelistEntry
resolve files dirs e = elim e.binary_path [
  | some path ↦ e
  | none ↦ record e { binary_path = find_binary files e.command dirs }
]

-- `PATH` is split at its colons, number 58.
unfoldable pub resolve_binary_paths : Files → String → WhitelistManager → WhitelistManager
resolve_binary_paths files path_var m = record m {
  exec_whitelist = map_values (resolve files (split 58 path_var)) m.exec_whitelist;
  shell_whitelist = map_values (resolve files (split 58 path_var)) m.shell_whitelist;
}

abbrev pub risky : Map String String
risky =
    ("vi", "Can spawn :!bash — use 'view' (read-only) instead")
    ∷ ("vim", "Can spawn :!bash — use 'view' (read-only) instead")
    ∷ ("less", "Can spawn !cmd — set LESSSECURE=1 or exclude")
    ∷ ("more", "Can spawn !cmd — set LESSSECURE=1 or exclude")
    ∷ ("man", "Uses less/more pager — same escape risk")
    ∷ ("python", "Arbitrary code execution")
    ∷ ("python3", "Arbitrary code execution")
    ∷ ("perl", "Arbitrary code execution")
    ∷ ("ruby", "Arbitrary code execution")
    ∷ ("lua", "Arbitrary code execution")
    ∷ ("node", "Arbitrary code execution")
    ∷ ("bash", "Unrestricted shell")
    ∷ ("sh", "Unrestricted shell")
    ∷ ("zsh", "Unrestricted shell")
    ∷ ("find", "-exec flag enables arbitrary execution")
    ∷ ("xargs", "Can execute arbitrary commands")
    ∷ ("awk", "system() function enables execution")
    ∷ ("nawk", "system() function enables execution")
    ∷ ("gawk", "system() function enables execution")
    ∷ []

unfoldable pub audit_escape_vectors : List String → List (String × String)
audit_escape_vectors [] = []
audit_escape_vectors (command ∷ commands) =
    let rest = audit_escape_vectors commands in
    elim (lookup command risky) [ none ↦ rest | some reason ↦ (command, reason) ∷ rest ]
