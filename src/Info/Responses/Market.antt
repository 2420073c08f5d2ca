-- ===== src/Info/Responses/Market.antt =====
-- The structs of info/market.go and info/funding.go.
use hyperliquid_go.Base.{List}
use hyperliquid_go.Base.Text.{Str}
use hyperliquid_go.Base.Int.{ℤ}

pub record Level (A : Type 0) : Type 0 where
  pub n : ℤ
  pub px : A
  pub sz : A

pub record L2Book (A : Type 0) : Type 0 where
  pub coin : Str
  pub levels : List (List (Level A))
  pub time : ℤ

pub record Candle : Type 0 where
  pub timestamp : ℤ
  pub close : Str
  pub high : Str
  pub interval : Str
  pub low : Str
  pub number : ℤ
  pub open_price : Str
  pub symbol : Str
  pub time : ℤ
  pub volume : Str

pub record FundingHistory : Type 0 where
  pub coin : Str
  pub funding_rate : Str
  pub premium : Str
  pub time : ℤ

pub record UserFundingHistory : Type 0 where
  pub user : Str
  pub type_ : Str
  pub start_time : ℤ
  pub end_time : ℤ
