-- ===== src/Fs/Files/Tests.antt =====
-- The theorems on fs/open.c and fs/inode.c at a table with two descriptors of one file.
use mini_os.Prelude.{
  ◌+◌, ◌≡◌, ◌↔◌, true, false, none, some, [], refl, arith, ◌==◌, if◌then◌else◌, update, test_bit,
}
use mini_os.Fs.Files.{Files, nr_open, close_fd, close_on_exec_fds}
use mini_os.Fs.Files.Count.{Counted, count}
use mini_os.Fs.Files.Calls.{after_call, after_call-Counted, dup3}
use mini_os.Fs.Files.Effects.{close_fd-frees}
use mini_os.Fs.Files.Exec.{close_on_exec_fds_lem}

abbrev opened : Files
opened = record {
  files = λ fd. if fd == 0 then some 7 else if fd == 2 then some 7 else none;
  close_on_exec = 4;
  file = λ p.
      if p == 7
      then some (record { refcount = 2; inode = some 1; has_release = true; f_flags = 0 })
      else none;
  inodes = λ i. record { i_count = 1; nlink = 0; persistent = true; has_free = true };
  events = [];
}

opened-Counted : Counted (λ p. 0) opened
opened-Counted = record { counted = λ p. ground arith }

after_call-Counted_example : Counted (λ p. 0) (after_call (dup3 0 5 0x80000) opened)
after_call-Counted_example = after_call-Counted (λ p. 0) (dup3 0 5 0x80000) opened opened-Counted

close_fd-frees_example :
    ((close_fd opened 2).1.file 7 ≡ none) ↔ (0 + count nr_open (update opened.files 2 none) 7 ≡ 0)
close_fd-frees_example = close_fd-frees (λ p. 0) opened 2 7 opened-Counted refl (λ e. ground arith)

close_on_exec_fds_lem_example :
    ((close_on_exec_fds opened).files 2 ≡ (if test_bit 4 2 then none else some 7))
    × (test_bit (close_on_exec_fds opened).close_on_exec 2 ≡ false)
close_on_exec_fds_lem_example = close_on_exec_fds_lem opened 2 (omega arith)
