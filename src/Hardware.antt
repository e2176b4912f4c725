-- ===== src/Hardware.antt =====
-- hardware.py: what the miner tells the pool about the machine. The outputs of commands and the contents of files are
-- arguments; `none` stands for one that fails or is not there.
pub mod Runtime
pub mod Processor
pub mod Environment
pub mod Numa
pub mod Gpus
pub mod Report
use minebtx.Prelude.{
  String, Bool, true, false, Option, none, some, List, [], ◌∷◌, map, str_eq, if◌then◌else◌,
}
use minebtx.Py.Text.{strip_text}
use minebtx.Py.Lines.{split, splitlines}

-- The parts of a line of comma-separated values.
abbrev cells : String → List String
cells line = map strip_text (split b',' line)

-- `_nvidia_query`, on the output of nvidia-smi
unfoldable pub nvidia_query : Option String → List (List String)
unfolding splitlines split strip_text
nvidia_query none = []
nvidia_query (some out) = if str_eq out "" then [] else map cells (splitlines out)
