-- ===== src/Fs/Bio/Tests.antt =====
-- Calls on the fresh buffer cache of fs/bio.c, and the theorems after them.
use re_xvapor.Base.{ℕ, ◌≡◌, refl, true, some, arith, ◌*◌, update}
use re_xvapor.Fs.Bio.{
  Bcache, push_front, push_from, unlink, binit, find_cached, find_unused, got, bget, bread, brelse,
  recycle, fetched,
}
use re_xvapor.Fs.Bio.Reach.{gets, Reach, starts, steps, one_buffer_per_block}
use re_xvapor.Fs.Bio.Result.{Result, bget-Result}

abbrev block_five : Bcache
block_five = recycle 1 5 1 binit

-- The first buffer of the array is the last of the list.
takes_last : bget 1 5 binit ≡ got 1 block_five
unfolding bget find_cached find_unused binit push_from push_front
takes_last = refl

reads_disk : bread (λ n. n * 2) 1 5 binit ≡ got 1 (fetched (λ n. n * 2) 1 block_five)
unfolding bread bget find_cached find_unused binit push_from push_front
reads_disk = refl

five-Reach : Reach block_five
five-Reach = steps binit block_five starts (gets 1 5 1 takes_last)

-- Released, the buffer goes to the front, and the next is the last.
released_first :
    brelse (λ b. true) 1 block_five
    ≡ some (record block_five {
      links = push_front 1 (unlink 1 binit.links);
      refcnt = update block_five.refcnt 1 0;
    })
unfolding brelse
released_first = refl

new_ends :
    ((push_front 1 (unlink 1 binit.links)).next 0 ≡ 1)
    × ((push_front 1 (unlink 1 binit.links)).prev 0 ≡ 2)
unfolding push_front unlink binit push_from
new_ends = (refl, refl)

abbrev first_buffer : ℕ
first_buffer = 1

one_buffer_per_block_example : first_buffer ≡ first_buffer
one_buffer_per_block_example =
    one_buffer_per_block block_five first_buffer first_buffer five-Reach (omega arith) (omega arith)
      refl refl

bget-Result_example : Result block_five 1 7 (bget 1 7 block_five)
bget-Result_example = bget-Result 1 7 block_five five-Reach
