-- ===== src/Scanbuttond/Loader/Tests.antt =====
-- src/scanbd/scanbuttond_loader.c with libraries that are counted by the handles that are open.
use scanbd.Prelude.{
  ℕ, suc, ◌-◌, ◌≤◌, ◌≡◌, refl, inl, if◌then◌else◌, true, false, some, length, lit, str_eq, arith,
}
use scanbd.Scanbuttond.Loader.{
  Libraries, CountsHandles, IsLoaded, dll_path, scanbtnd_load_backend, scanbtnd_unload_backend,
  scanbtnd_load_backend-IsLoaded,
}

-- Each library can be opened, and lacks the function that ends a backend.
abbrev incomplete : Libraries ℕ
incomplete = record {
  dlopen = λ path d. (some d, suc d);
  dlsym = λ handle symbol d. if str_eq symbol (lit "scanbtnd_exit") then false else true;
  dlclose = λ handle d. d - 1;
}

abbrev open_handles : ℕ → ℕ
open_handles d = d

incomplete-CountsHandles : CountsHandles incomplete open_handles
incomplete-CountsHandles = record {
  opened_or_not = λ path d. inl (d, refl, refl);
  one_closed = λ handle d. refl;
}

scanbtnd_load_backend-IsLoaded_example :
    (length (dll_path (lit "/usr/lib/scanbd") (lit "meta")) ≤ 4096)
    × IsLoaded incomplete open_handles 2
        (scanbtnd_load_backend incomplete (lit "/usr/lib/scanbd") (lit "meta") 2)
    × (open_handles (
          scanbtnd_unload_backend incomplete
            (scanbtnd_load_backend incomplete (lit "/usr/lib/scanbd") (lit "meta") 2).0
            (scanbtnd_load_backend incomplete (lit "/usr/lib/scanbd") (lit "meta") 2).1)
        ≡ 2)
scanbtnd_load_backend-IsLoaded_example =
    scanbtnd_load_backend-IsLoaded incomplete open_handles (lit "/usr/lib/scanbd") (lit "meta") 2
      incomplete-CountsHandles (omega arith)
