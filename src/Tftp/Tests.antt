-- ===== src/Tftp/Tests.antt =====
-- The theorems about net/tftp.c at a small file, and about the number in its request.
use gogoboot.Base.{
  ◌⊎◌, Bool-cases, ltb, length, ◌+◌, if◌then◌else◌, ℕ, ◌*◌, ◌≡◌, refl, true, false, some, inl, inr,
  List, [], ◌∷◌, ◌++◌, All, arith, take, drop,
}
use gogoboot.Strtoul.{atoi}
use gogoboot.Tftp.{Disk, Transfer}
use gogoboot.Tftp.Receive.{Writes, arrived}
use gogoboot.Tftp.Reassembly.{IsFile}
use gogoboot.Tftp.Request.{decimal, digits_max}
use gogoboot.Tftp.Request.Tsize.{atoi-decimal}
use gogoboot.Tftp.Client.{new_transfer}
use gogoboot.Tftp.Client.Get.{Event, arrives, times_out, handle_all, IsBlock, IsFresh}
use gogoboot.Tftp.Client.Failing.{IsHonest, handle_all-get}
use gogoboot.Tftp.Client.Finish.{InOrder, handle_all-success}
use gogoboot.Tftp.Send.{Reads, IsSending}
use gogoboot.Tftp.Client.Put.{receive_acks}
use gogoboot.Tftp.Client.Exchange.{deliver, deliver-receive_acks}
use gogoboot.Tftp.Client.GiveUp.{times_out_all, times_out_all-fails}

-- A disk that keeps what is written and is never full.
abbrev disk : Disk
disk = record {
  f_write = λ file l. (true, file ++ l);
  f_read = λ file position size. some (take size (drop position file));
}

disk-Writes : Writes disk
disk-Writes file l = refl

-- A file of two full blocks and a short one.
abbrev bytes : List ℕ
bytes = 1 ∷ 2 ∷ 3 ∷ 4 ∷ 5 ∷ 6 ∷ 7 ∷ []

bytes-IsFile : IsFile 3 2 bytes
bytes-IsFile = record { full_le = omega arith; short = omega arith; few = omega arith }

-- After an agreement on blocks of 3 bytes and windows of 2.
abbrev get : Transfer
get = record (new_transfer false (102 ∷ []) [] 0) {
  block_size = 3;
  window_size = 2;
  started = true;
}

get-IsFresh : IsFresh 3 get
unfolding new_transfer
get-IsFresh = record {
  is_get = refl;
  same_size = refl;
  no_block = refl;
  no_file = refl;
  no_packet = refl;
  no_success = refl;
}

-- The second block comes early, the first one twice, and a timeout comes.
abbrev mixed : List Event
mixed =
    arrives 10 70 2
    ∷ arrives 11 70 1
    ∷ arrives 12 70 1
    ∷ times_out 70 6144
    ∷ arrives 75 70 2
    ∷ arrives 76 70 3
    ∷ []

mixed-IsBlock : All (IsBlock 2) mixed
mixed-IsBlock = (
  (omega arith, omega arith),
  (
    (omega arith, omega arith),
    (
      (omega arith, omega arith),
      (tt, ((omega arith, omega arith), ((omega arith, omega arith), tt))),
    ),
  ),
)

-- A disk that has room for 5 bytes only.
abbrev small_disk : Disk
small_disk = record {
  f_write = λ file l. if ltb 5 (length file + length l) then (false, file) else (true, file ++ l);
  f_read = λ file position size. some (take size (drop position file));
}

small_disk-IsHonest : IsHonest small_disk
small_disk-IsHonest file l = elim (Bool-cases (ltb 5 (length file + length l))) [
  | inl full ↦ rw full (inr refl)
  | inr fits ↦ rw fits (inl refl)
]

handle_all-get_example :
    (((handle_all small_disk 3 bytes mixed get).completed ≡ true)
      × ((handle_all small_disk 3 bytes mixed get).success ≡ false))
    ⊎ ((arrived (handle_all small_disk 3 bytes mixed get)
          ≡ take ((handle_all small_disk 3 bytes mixed get).last_block * 3) bytes)
        × (((handle_all small_disk 3 bytes mixed get).success ≡ false)
            ⊎ ((handle_all small_disk 3 bytes mixed get).file ≡ bytes)))
handle_all-get_example =
    handle_all-get 3 2 bytes small_disk mixed get small_disk-IsHonest bytes-IsFile get-IsFresh
      mixed-IsBlock

abbrev early : List Event
early = arrives 10 70 2 ∷ arrives 11 70 1 ∷ arrives 12 70 1 ∷ arrives 13 70 2 ∷ arrives 14 70 3 ∷ []

early-IsBlock : All (IsBlock 2) early
early-IsBlock = (
  (omega arith, omega arith),
  (
    (omega arith, omega arith),
    ((omega arith, omega arith), ((omega arith, omega arith), ((omega arith, omega arith), tt))),
  ),
)

early-InOrder : InOrder 2 0 early
unfolding InOrder
early-InOrder = inl (inr (refl, inl (inr (refl, inr (refl, omega arith)))))

handle_all-success_example :
    ((handle_all disk 3 bytes early get).completed ≡ true)
    × ((handle_all disk 3 bytes early get).success ≡ true)
    × ((handle_all disk 3 bytes early get).file ≡ bytes)
unfolding new_transfer
handle_all-success_example =
    handle_all-success 3 2 bytes disk early get disk-Writes bytes-IsFile get-IsFresh refl
      early-IsBlock early-InOrder

abbrev ticks : List ℕ
ticks =
    1 ∷ 2 ∷ 3 ∷ 4 ∷ 5 ∷ 6 ∷ 7 ∷ 8 ∷ 9 ∷ 10 ∷ 11 ∷ 12 ∷ 13 ∷ 14 ∷ 15 ∷ 16 ∷ 17 ∷ 18 ∷ 19 ∷ 20 ∷ 21
    ∷ []

times_out_all-fails_example :
    ((times_out_all disk 6144 ticks get).completed ≡ false)
    × ((times_out_all disk 6144 (ticks ++ 22 ∷ []) get).completed ≡ true)
    × ((times_out_all disk 6144 (ticks ++ 22 ∷ []) get).success ≡ false)
unfolding new_transfer
times_out_all-fails_example =
    times_out_all-fails ticks (22 ∷ []) disk 6144 get disk-Writes (λ file position size. refl)
      (omega arith) refl refl refl refl

atoi-decimal_example : atoi (decimal digits_max 1474560 [] ++ 0 ∷ 98 ∷ []) ≡ 1474560
atoi-decimal_example = atoi-decimal 1474560 (98 ∷ []) (omega arith)

-- A put of the same file, after an agreement on blocks of 3 bytes.
abbrev put : Transfer
put = record (new_transfer true (102 ∷ []) bytes 7) { block_size = 3; started = true }

put-IsSending : IsSending 3 0 bytes put
unfolding new_transfer
put-IsSending = record {
  is_put = refl;
  same_size = refl;
  same_file = refl;
  one_block = refl;
  total = refl;
  last = refl;
  transferred = omega arith;
}

disk-Reads : Reads disk
disk-Reads file position size = refl

deliver-receive_acks_example :
    ((receive_acks disk 10 70 4 0 put).completed ≡ true)
    × ((receive_acks disk 10 70 4 0 put).success ≡ true)
    × ((deliver disk 20 71 (receive_acks disk 10 70 4 0 put).sent get).completed ≡ true)
    × ((deliver disk 20 71 (receive_acks disk 10 70 4 0 put).sent get).success ≡ true)
    × ((deliver disk 20 71 (receive_acks disk 10 70 4 0 put).sent get).file ≡ put.file)
unfolding new_transfer
deliver-receive_acks_example =
    deliver-receive_acks 3 2 bytes disk disk 10 70 20 71 put get disk-Reads disk-Writes bytes-IsFile
      (omega arith) put-IsSending refl get-IsFresh refl
