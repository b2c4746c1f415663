-- ===== src/Lib.antt =====
-- Models of portable-lib, a C library of data structures, allocators and text utilities. Its parts
-- are independent of each other: a header or a source file offers a type and its operations, and a
-- program links what it needs. Each part has a module here; none shares state with another.
--
-- * FastHt models src/hashtable/fast-ht.c and inc/utils/fast-ht.h: FastHt.Bag the fingerprints
--   and the slots of a bag (__find_matches, __find_key, __update_fp), FastHt.Bucket a bucket's
--   list of bags (__insert, __insert_quick, __findx), FastHt.Table the table and its operations
--   (ht_init, ht_probe, ht_find, ht_replace, ht_remove, resize).
-- * Hashtab models src/hashtable/hashtab.c: Hashtab its data and the calls that add and find,
--   Hashtab.Remove those that remove and those on a whole table; Hashtab.Chains, Valid and Move
--   what is well-formed, Resize, Adding, Replacing, Removing and Sweeping the effect of the
--   calls, Hashtab.Dictionary sequences of calls; Hashtab.Iterate the iterators of
--   src/hashtable/hashtab_iter.c, Hashtab.Visiting what they reach.
-- * Encdec models inc/fast/encdec.h.
-- * FastQueue models the circular queues of inc/fast/queue.h.
-- * ParseIp models src/parse-ip.c.
-- * StrToSize models src/strtosize.c.
-- * Mempool models src/mempool.c: Mempool.Align the alignment macro, Mempool.Blocks the
--   invariant, Mempool.Carving, Growing, Returning and Allocation the operations' effect on it,
--   Mempool.Init a new pool.
-- * Bitset models inc/fast/bitset.h.
-- * Hex models src/str2hex.c, src/uuid2str.c and src/uuid.c.
-- * Split models src/strtrim.c, src/strsplit.c and src/bits.h: Split.Trim the trimmed text,
--   Split.Delims the set of delimiters, Split.Fields the loops, Split.Tokens the calls.
-- * Gstring models src/gstring.c: Gstring.Capacity the buffer, Growing, Ending and Trimming the
--   calls, Calls sequences of them.
-- * Bloom models src/hashtable/bloom.c and bloom_internal.h: Bloom the standard and the counting
--   filter, Bloom.Scalable the scalable one and the calls of inc/utils/bloom.h; Bloom.Places the
--   slots of an item, Loops the loops over them, Standard, Counting and Bags what the filters
--   hold, Growing, Scaling and Spanning the filters of a scalable one, Equal the comparison.
-- * Ulid models src/ulid.c, Ulid.Groups the groups of eight characters, Ulid.Text the text read
--   back.
-- * Vect models inc/fast/vect.h: Vect.Room the growth, Shifts the loops over all elements, Ends
--   the single calls, Calls and Runs sequences of them, Shuffled the shuffle, Sampled the
--   sampling. FastBuf models inc/fast/buf.h, which grows by the same loop.
-- * Minheap models inc/utils/minheap.h: Minheap.Order the heap order, Down and Up the two loops,
--   Calls the calls, Draining all elements taken out.
-- * Chars holds what ParseIp and StrToSize use of the C library's character tests; Prelude holds
--   the shared helpers: Boolean tests, lists measured by native numbers, the bit operations as
--   arithmetic, and machine words.
--
-- A word of w bits is a native number, and each operation that can leave its range is written with
-- its remainder modulo 2 ^ w. A state is a record with the source's fields and an operation maps
-- it to the next one. A string is the list of its characters' codes up to its NUL. Memory that an
-- allocation gives is fresh; a failed allocation is a missing result where the code can return
-- after it. Hashtab takes the allocator's answers and the lock manager as arguments, and the
-- client's hash and comparison as a parameter with what they promise; Gstring, Bloom, Vect and
-- FastBuf take what fresh memory holds as an argument, Bloom and Encdec the floating-point numbers
-- and FastBuf the macro RENEW as a parameter, and Minheap the client's comparison and exchange
-- with what they promise.
--
-- Loops are structural recursion over the list that they walk. Two loops of ParseIp and the loops
-- over a mask of FastHt.Bag run on fuel: 9 steps for the bits of an octet and 5 for the octets of
-- a mask, one more than there are, so that the result is never the one of exhausted fuel; the
-- theorems on their callers prove it. The doubling of a capacity in Vect runs on fuel too: 65
-- turns double a number of 64 bits past any other unless it is 0, and then the loop of the code
-- does not end either; the theorems on sequences of calls prove that it ends. The loops of Minheap
-- have a turn for each position that they can reach, and that of remove two. The client's loop
-- over an iterator in Hashtab.Visiting runs on turns, of which one more than there are nodes are
-- enough.
--
-- Not modelled are the parts that only call the operating system (mmap, threads, sockets, files,
-- terminals), the hash and text routines taken from other projects, and code that does no more
-- than allocate and free an object.
pub mod Prelude
pub mod FastHt
pub mod Chars
pub mod Encdec
pub mod FastQueue
pub mod ParseIp
pub mod StrToSize
pub mod Mempool
pub mod Bitset
pub mod Hashtab
pub mod Hex
pub mod Split
pub mod Gstring
pub mod Bloom
pub mod Ulid
pub mod Vect
pub mod FastBuf
pub mod Minheap
