-- ===== src/Dict/KeyFilter/Bounds.antt =====
-- What open() of src/dict/keyfilter.cpp takes of a file.
use marupop.Dict.KeyFilter.{KeyFilter}
