-- ===== src/Codesign/CodeDirectory/RoundTrip/Fixed.antt =====
-- The fields of every version are read where they are laid out.
use apple_platform_rs.Base.{ℕ, ◌%◌, ◌^◌, ◌≡◌, ok, Bytes, u32_bytes, ◌++◌, IsU32, IsByte}
use apple_platform_rs.Base.Gread.{u8_bytes, At, At-next}
use apple_platform_rs.Codesign.DigestType
use apple_platform_rs.Codesign.CodeDirectory.Data.{CodeDirectoryBlob}
use apple_platform_rs.Codesign.CodeDirectory.Parse.{Fixed, read_fixed}
use apple_platform_rs.Codesign.CodeDirectory.RoundTrip.{fixed_bytes, IsInRange}
use apple_platform_rs.Codesign.CodeDirectory.RoundTrip.Fields.{u8-At, u32-At}

-- `page` is the logarithm of the page size.
module _ (b : CodeDirectoryBlob) (r : IsInRange b)
    (digest_offset ident_offset n_special n_code page : ℕ) where
  abbrev pub fixed_of : Fixed
  fixed_of = record {
    version = b.version;
    flags = b.flags;
    digest_offset = digest_offset;
    ident_offset = ident_offset;
    n_special_slots = n_special;
    n_code_slots = n_code;
    code_limit = b.code_limit;
    digest_size = b.digest_size;
    digest_type = DigestType.from_u8 (DigestType.to_u8 b.digest_type);
    platform = b.platform;
    page_size = 2 ^ page % 2 ^ 32;
    spare2 = b.spare2;
  }

  pub read_fixed-At :
      (data' rest : Bytes)
      → IsU32 digest_offset
      → IsU32 ident_offset
      → IsU32 n_special
      → IsU32 n_code
      → IsByte page
      → At data' 8 (fixed_bytes b digest_offset ident_offset n_special n_code page) rest
      → read_fixed data' ≡ ok (fixed_of, 44)
  unfolding read_fixed fixed_bytes u8_bytes u32_bytes
  read_fixed-At data' rest hd hi hs hc hp h =
      let t12 = rest in
      let t11 = u32_bytes b.spare2 ++ t12 in
      let t10 = u8_bytes page ++ t11 in
      let t9 = u8_bytes b.platform ++ t10 in
      let t8 = u8_bytes (DigestType.to_u8 b.digest_type) ++ t9 in
      let t7 = u8_bytes b.digest_size ++ t8 in
      let t6 = u32_bytes b.code_limit ++ t7 in
      let t5 = u32_bytes n_code ++ t6 in
      let t4 = u32_bytes n_special ++ t5 in
      let t3 = u32_bytes ident_offset ++ t4 in
      let t2 = u32_bytes digest_offset ++ t3 in
      let t1 = u32_bytes b.flags ++ t2 in
      let h1 = At-next data' 8 (u32_bytes b.version) (u32_bytes b.flags) t2 h in
      let h2 = At-next data' 12 (u32_bytes b.flags) (u32_bytes digest_offset) t3 h1 in
      let h3 = At-next data' 16 (u32_bytes digest_offset) (u32_bytes ident_offset) t4 h2 in
      let h4 = At-next data' 20 (u32_bytes ident_offset) (u32_bytes n_special) t5 h3 in
      let h5 = At-next data' 24 (u32_bytes n_special) (u32_bytes n_code) t6 h4 in
      let h6 = At-next data' 28 (u32_bytes n_code) (u32_bytes b.code_limit) t7 h5 in
      let h7 = At-next data' 32 (u32_bytes b.code_limit) (u8_bytes b.digest_size) t8 h6 in
      let h8 =
        At-next data' 36 (u8_bytes b.digest_size) (u8_bytes (DigestType.to_u8 b.digest_type)) t9
          h7 in
      let h9 =
        At-next data' 37 (u8_bytes (DigestType.to_u8 b.digest_type)) (u8_bytes b.platform) t10 h8 in
      let h10 = At-next data' 38 (u8_bytes b.platform) (u8_bytes page) t11 h9 in
      let h11 = At-next data' 39 (u8_bytes page) (u32_bytes b.spare2) t12 h10 in
      rw (
        u32-At data' 8 b.version t1 r.version h,
        u32-At data' 12 b.flags t2 r.flags h1,
        u32-At data' 16 digest_offset t3 hd h2,
        u32-At data' 20 ident_offset t4 hi h3,
        u32-At data' 24 n_special t5 hs h4,
        u32-At data' 28 n_code t6 hc h5,
        u32-At data' 32 b.code_limit t7 r.code_limit h6,
        u8-At data' 36 b.digest_size t8 r.digest_size h7,
        u8-At data' 37 (DigestType.to_u8 b.digest_type) t9 r.digest_type h8,
        u8-At data' 38 b.platform t10 r.platform h9,
        u8-At data' 39 page t11 hp h10,
        u32-At data' 40 b.spare2 t12 r.spare2 h11,
      )
