-- ===== src/Collectors/Fixtures.antt =====
-- Hosts and runners in memory, as in collectors/fakes_test.go, for the tests.
use rewsr_maxfields.Base.{true, false, Option, none, some, List, ◌++◌, Str, str, str_eq}
use rewsr_maxfields.Base.Dict.{Dict, has, lookup}
use rewsr_maxfields.Facts.Build.{Result, ok, err}
use rewsr_maxfields.Collectors.Host.{Host, Entry, Tools}

-- A host with files and directories; a path that is either can be stated.
abbrev pub fixture : Dict Str Str → Dict Str (List Entry) → Host
fixture files dirs = record {
  root = str "/";
  joined = λ path. str "/" ++ path;
  now = 7;
  read_file = λ path. lookup path files;
  read_dir = λ path. lookup path dirs;
  stat = λ path. elim (has path files) [ true ↦ true | false ↦ has path dirs ];
  runs = λ command args. none;
}

abbrev pub answer : Str → Option Str → Result Str
answer name (some out) = ok out
answer name none = err (name ++ str " failed")

-- The commands that have an output are installed.
abbrev pub toolbox : Dict Str Str → Tools
toolbox outputs = record {
  look_path =
      λ name. elim (has name outputs) [ true ↦ none | false ↦ some (str "not on the path") ];
  run = λ name args. answer name (lookup name outputs);
}
