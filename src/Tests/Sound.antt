-- ===== src/Tests/Sound.antt =====
-- A release that is published from the command line.
use k_dash.Base.{none, ◌≡◌, ◌⊎◌, raise_python, os_error, ok, err, List, []}
use k_dash.Json.Numbers.{pos}
use k_dash.Cache.Sound.{IsSound, empty_cache-IsSound}
use k_dash.Runtime.{Registries}
use k_dash.Publish.Pushes.{Pushed}
use k_dash.Cli.Run.{publish, Shell, Tools, main}
use k_dash.Cli.Sound.{IsRemoval, main-IsSound}
use k_dash.Tests.Fixtures.{codec}
use k_dash.Tests.Jit.{read_elf}
use k_dash.Tests.Network.{absent}
use k_dash.Tests.Publishing.{
  publish_libraries, readers, matches_nothing, root, store, clients, builders, around, request,
  start,
}
use k_dash.Tests.Building.{age, removes_all_but}
use k_dash.Tests.Creating.{resources}

abbrev net : Registries (List Pushed)
net = record {
  get_manifest = λ r kernel reference w. (err absent, w);
  pull = λ r kernel reference artifact_type w. (err absent, w);
}

abbrev tools : Tools
tools = record {
  resources = resources;
  numerals = record { upper = λ text. text; scaled = λ text unit. ok (pos unit) };
  mtime = age;
  cache_root = "/cache";
  rmtree_entry = removes_all_but "";
  rmtree_child = λ child c. none;
}

abbrev shell : Shell (List Pushed)
shell = record { inner = start; cwd = root; directories = [] }

main-IsSound_example :
    IsSound
      (main publish_libraries readers matches_nothing store codec read_elf builders clients net
        around tools
        (publish request)
        shell).1.inner.cache
    ⊎ (IsRemoval (publish request)
        × ((main publish_libraries readers matches_nothing store codec read_elf builders clients net
              around tools
              (publish request)
              shell).0
            ≡ raise_python os_error))
main-IsSound_example =
    main-IsSound publish_libraries readers matches_nothing store codec read_elf builders clients net
      around tools (publish request) shell empty_cache-IsSound
