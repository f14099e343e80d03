-- ===== src/Lib.antt =====
-- A verification of the cryptographic core in C: crypto/crypto-ops.c, the arithmetic of scalars
-- modulo the order of the base point and of field elements modulo 2^255 - 19, on which keys,
-- signatures and range proofs stand, and crypto/tree-hash.c, the Merkle tree of the hashes of a
-- block's transactions.
--
-- The program. A scalar is 32 bytes. The `sc_` routines load it into twelve limbs of 21 bits, add or
-- multiply, carry from limb to limb, replace high limbs by multiples of low ones, since 2^252 is
-- congruent to -27742317777372353535851937790883648493, and store twelve limbs as 32 bytes. A field
-- element, `fe`, is ten signed limbs of 26 and 25 bits in turn; its sums are not carried, so the
-- products must admit what the sums return. Both kinds are straight-line code on signed words. A
-- point of the curve is three or four field elements, in one of five systems of coordinates; the
-- formulas that add points are a few calls of the field's functions each.
-- The tree of hashes is computed in place, layer by layer, in an array of as many hashes as the
-- largest power of two below their count; a branch of it shows that a hash is among them.
--
-- The files.
-- - Common: the shared names, integers over native numbers, intervals, bits, polynomials with a
--   normal form, bounds of polynomials. It models no code.
-- - Bytes: `load_3`, `load_4`, the stores of words into bytes, and the number that bytes stand for.
-- - Limbs: one constructor of `Step` per form of line that the straight-line code repeats, with
--   its meaning `step`; a routine is a list of steps and `run` executes it. Below: the value of
--   limbs, congruence of the steps, ranges of limbs through the steps.
-- - Scalar: `sc_0`, `sc_reduce32`, `sc_reduce`, `sc_add`, `sc_sub`, `sc_mul`, `sc_muladd` and
--   `sc_mulsub`. Scalar/Products holds the sums of products, Scalar/Routines the routines; the
--   lines that all of them end with are `finish`. Scalar/Finish, Correct and Overflow hold the
--   proofs, Scalar/Algebra how the routines agree with one another.
--   Scalar/Check: `signum`, `sc_check`, `sc_isnonzero`.
-- - Field: `fe_0`, `fe_1`, `fe_add`, `fe_sub`, `fe_neg`, `fe_copy`, `fe_mul`, `fe_sq`, `fe_sq2`.
--   Field/Products holds the sums of products; Field/Value, Range, Sums and Same the proofs.
--   Field/Encode: `fe_tobytes`, `fe_isnegative`, `fe_isnonzero`. Field/Power: `fe_invert`,
--   `fe_divpowm1`. Field/Sized and Stands carry the value and the size of limbs through all of
--   them, for the users of the field.
-- - Group: `ge_add`, `ge_sub`, `ge_madd`, `ge_msub`, `ge_p2_dbl`, `ge_p3_dbl`, `ge_mul8`,
--   `ge_dsm_precomp`, the conversions and the neutral elements, with the constants of
--   crypto/crypto-ops-data.c that they use. Group/Affine defines the affine points and their sum,
--   and when coordinates stand for a point. Group/Encoding: `ge_tobytes`, `ge_p3_tobytes` and
--   `ge_p3_is_point_at_infinity_vartime`. Group/Slide: `slide`. Group/Multiples:
--   `ge_double_scalarmult_precomp_vartime2` and `ge_double_scalarmult_precomp_vartime`.
-- - Tree: `tree_hash_cnt`, `tree_hash`, `tree_branch_hash` and `is_branch_in_tree` of
--   crypto/tree-hash.c. `cn_fast_hash` of two hashes is a parameter, and nothing is assumed of it.
--   Tree/Nodes defines the tree from the root down; Tree/Fold defines the hash that a
--   branch leads to without machine words; Tree/Count, Root, Branch and Climb hold the proofs.
--   Tree/Extract: `tree_path` and `tree_branch`.
--
-- The correspondence. An array of words is a list, indexed from 0; a routine returns what it writes
-- to its first argument, so an output that is also an input needs no store: the source reads all
-- inputs before it writes. Bytes are numbers below 256. Unsigned words wrap around (`% 2 ^ 64`,
-- `% 2 ^ 32`). The path of `tree_branch_hash` is a 32-bit word, and a shift of it by 32 places or
-- more, which a depth above 32 asks for and C leaves without meaning, is `none`, as a failed
-- assertion is. Signed words are integers, because overflow of a signed word has no meaning in C;
-- ranges are the matter of theorems of their own. Shifts of negative words to the right round down,
-- as the compilers the source is written for do, and shifts to the left multiply.
-- The loops of the tree run on the number of turns left; those whose number of turns is not written
-- down, over a power of two up to 2^28, have fuel for 64 turns and need at most 28 of them.
--
-- An affine point is two integers, and equations between them are congruences modulo the prime, so
-- nothing depends on the prime being prime. The sum of two points is a relation, Edwards' formula
-- without its divisions. That all sums of the curve form a group is neither assumed nor used: a
-- scalar multiplication is described over a family of points, given with the sums it needs.
-- `slide` works on an array in place, but never looks back: its loop is a recursion on the list of the
-- digits to come. The loop of a scalar multiplication runs down from the highest digit, and is a
-- recursion over the digits from the lowest.
-- `fe_tobytes` combines words in bits that lie above the byte it stores; only that byte is modelled.
--
-- Not modelled: the other scalar multiplications, `fe_cmov`, `select`, the decoding of points, the
-- tables of points, the hash functions and all C++ parts. What they do is stated nowhere here.
pub mod Common
pub mod Limbs
pub mod Bytes
pub mod Scalar
pub mod Tree
pub mod Field
pub mod Group
