-- ===== src/Dispatch/Methods.antt =====
-- The methods of `dispatch_inner` in server/src/handlers/mod.rs, one constructor for each arm.
use emacs_tramp_rpc.Prelude.{String, Bool, ◌≡◌, Option, List, [], ◌∷◌, str_eq}
use emacs_tramp_rpc.Prelude.Table.{get, string_eq}

pub data Method : Type 0 where
  file_stat file_truename dir_list dir_create dir_remove file_read file_write file_copy file_rename
        file_delete file_set_modes file_set_times file_make_symlink file_make_hardlink file_chown
        process_run process_start process_write process_read process_status process_close_stdin
        process_kill process_list process_start_pty process_read_pty process_write_pty
        process_resize_pty process_kill_pty process_close_pty process_list_pty system_info
        system_getenv system_expand_path system_statvfs system_groups commands_run_parallel
        ancestors_scan highlevel_test_files_in_dir highlevel_locate_dominating_file_multi
        highlevel_dir_locals_find_file_cache_update watch_add watch_remove watch_list :
      Method

-- The arms of the match, in order.
abbrev pub routes : List (String × Method)
routes =
    ("file.stat", file_stat)
    ∷ ("file.truename", file_truename)
    ∷ ("dir.list", dir_list)
    ∷ ("dir.create", dir_create)
    ∷ ("dir.remove", dir_remove)
    ∷ ("file.read", file_read)
    ∷ ("file.write", file_write)
    ∷ ("file.copy", file_copy)
    ∷ ("file.rename", file_rename)
    ∷ ("file.delete", file_delete)
    ∷ ("file.set_modes", file_set_modes)
    ∷ ("file.set_times", file_set_times)
    ∷ ("file.make_symlink", file_make_symlink)
    ∷ ("file.make_hardlink", file_make_hardlink)
    ∷ ("file.chown", file_chown)
    ∷ ("process.run", process_run)
    ∷ ("process.start", process_start)
    ∷ ("process.write", process_write)
    ∷ ("process.read", process_read)
    ∷ ("process.status", process_status)
    ∷ ("process.close_stdin", process_close_stdin)
    ∷ ("process.kill", process_kill)
    ∷ ("process.list", process_list)
    ∷ ("process.start_pty", process_start_pty)
    ∷ ("process.read_pty", process_read_pty)
    ∷ ("process.write_pty", process_write_pty)
    ∷ ("process.resize_pty", process_resize_pty)
    ∷ ("process.kill_pty", process_kill_pty)
    ∷ ("process.close_pty", process_close_pty)
    ∷ ("process.list_pty", process_list_pty)
    ∷ ("system.info", system_info)
    ∷ ("system.getenv", system_getenv)
    ∷ ("system.expand_path", system_expand_path)
    ∷ ("system.statvfs", system_statvfs)
    ∷ ("system.groups", system_groups)
    ∷ ("commands.run_parallel", commands_run_parallel)
    ∷ ("ancestors.scan", ancestors_scan)
    ∷ ("highlevel.test_files_in_dir", highlevel_test_files_in_dir)
    ∷ ("highlevel.locate_dominating_file_multi", highlevel_locate_dominating_file_multi)
    ∷ ("highlevel.dir_locals_find_file_cache_update", highlevel_dir_locals_find_file_cache_update)
    ∷ ("watch.add", watch_add)
    ∷ ("watch.remove", watch_remove)
    ∷ ("watch.list", watch_list)
    ∷ []

unfoldable pub route : String → Option Method
unfolding get
route method = get method routes

-- The name under which a client calls a method.
unfoldable pub method_name : Method → String
method_name file_stat = "file.stat"
method_name file_truename = "file.truename"
method_name dir_list = "dir.list"
method_name dir_create = "dir.create"
method_name dir_remove = "dir.remove"
method_name file_read = "file.read"
method_name file_write = "file.write"
method_name file_copy = "file.copy"
method_name file_rename = "file.rename"
method_name file_delete = "file.delete"
method_name file_set_modes = "file.set_modes"
method_name file_set_times = "file.set_times"
method_name file_make_symlink = "file.make_symlink"
method_name file_make_hardlink = "file.make_hardlink"
method_name file_chown = "file.chown"
method_name process_run = "process.run"
method_name process_start = "process.start"
method_name process_write = "process.write"
method_name process_read = "process.read"
method_name process_status = "process.status"
method_name process_close_stdin = "process.close_stdin"
method_name process_kill = "process.kill"
method_name process_list = "process.list"
method_name process_start_pty = "process.start_pty"
method_name process_read_pty = "process.read_pty"
method_name process_write_pty = "process.write_pty"
method_name process_resize_pty = "process.resize_pty"
method_name process_kill_pty = "process.kill_pty"
method_name process_close_pty = "process.close_pty"
method_name process_list_pty = "process.list_pty"
method_name system_info = "system.info"
method_name system_getenv = "system.getenv"
method_name system_expand_path = "system.expand_path"
method_name system_statvfs = "system.statvfs"
method_name system_groups = "system.groups"
method_name commands_run_parallel = "commands.run_parallel"
method_name ancestors_scan = "ancestors.scan"
method_name highlevel_test_files_in_dir = "highlevel.test_files_in_dir"
method_name highlevel_locate_dominating_file_multi = "highlevel.locate_dominating_file_multi"
method_name highlevel_dir_locals_find_file_cache_update =
    "highlevel.dir_locals_find_file_cache_update"
method_name watch_add = "watch.add"
method_name watch_remove = "watch.remove"
method_name watch_list = "watch.list"

abbrev Named : String × Method → Type 0
Named (name, m) = name ≡ method_name m

named : String × Method → Bool
named (name, m) = str_eq name (method_name m)
