-- ===== src/Samples/Purchase.antt =====
-- A market in which the engine finds a purchase: H4 rises, a swing low of M15 is swept, a displacement
-- with its order block follows, and M5 turns upwards.
use mmxm.Prelude.{List, [], ◌∷◌}
use mmxm.Double.Fixed.{Fixed, fixed_double}
use mmxm.Types.{Timeframe, m5, m15, h4, Candle, MmxmAnalysisInput, default_strategy_config}
use mmxm.Samples.{candle}

abbrev rising : List (Candle Fixed)
rising =
    candle 0 2000 2003 1999 2002
    ∷ candle 240 2005 2008 2004 2007
    ∷ candle 480 2010 2013 2009 2012
    ∷ candle 720 2015 2018 2014 2017
    ∷ candle 960 2020 2023 2019 2022
    ∷ []

abbrev turning : List (Candle Fixed)
turning =
    candle 14400 2000 2003 1999 2002
    ∷ candle 14405 2002 2005 2001 2004
    ∷ candle 14410 2004 2007 2003 2006
    ∷ candle 14415 2006 2009 2005 2008
    ∷ candle 14420 2008 2012 2007 2010
    ∷ candle 14425 2010 2011 2006 2007
    ∷ candle 14430 2007 2008 2003 2004
    ∷ candle 14435 2004 2005 1999 2000
    ∷ candle 14440 2000 2001 1996 1997
    ∷ candle 14445 1997 1998 1993 1994
    ∷ candle 14450 1994 1995 1988 1990
    ∷ candle 14455 1990 1994 1989 1993
    ∷ candle 14460 1993 1997 1992 1996
    ∷ candle 14465 1996 2000 1995 1999
    ∷ candle 14470 1999 2003 1998 2002
    ∷ candle 14475 2002 2007 2001 2005
    ∷ candle 14480 2005 2006 2001 2002
    ∷ candle 14485 2002 2003 1998 1999
    ∷ candle 14490 1999 2000 1995 1996
    ∷ candle 14495 1996 1997 1992 1993
    ∷ candle 14500 1993 1994 1989 1990
    ∷ candle 14505 1990 1991 1986 1987
    ∷ candle 14510 1987 1988 1983 1984
    ∷ candle 14515 1984 1985 1980 1981
    ∷ candle 14520 1981 1982 1977 1978
    ∷ candle 14525 1978 1979 1973 1975
    ∷ candle 14530 1975 1978 1974 1977
    ∷ candle 14535 1977 1980 1976 1979
    ∷ candle 14540 1979 1982 1978 1981
    ∷ candle 14545 1981 1984 1980 1983
    ∷ candle 14550 1983 1986 1982 1985
    ∷ candle 14555 1985 1988 1984 1987
    ∷ candle 14560 1987 1990 1986 1989
    ∷ candle 14565 1989 1992 1988 1991
    ∷ candle 14570 1991 1994 1990 1993
    ∷ candle 14575 1993 1996 1992 1995
    ∷ candle 14580 1995 1998 1994 1997
    ∷ candle 14585 1997 2000 1996 1999
    ∷ candle 14590 1999 2002 1998 2001
    ∷ candle 14595 2001 2004 2000 2003
    ∷ candle 14600 2003 2006 2002 2005
    ∷ candle 14605 2005 2008 2004 2007
    ∷ candle 14610 2007 2010 2006 2009
    ∷ candle 14615 2009 2012 2008 2011
    ∷ candle 14620 2011 2014 2010 2013
    ∷ candle 14625 2013 2016 2012 2015
    ∷ candle 14630 2015 2018 2014 2017
    ∷ candle 14635 2017 2020 2016 2019
    ∷ candle 14640 2019 2022 2018 2021
    ∷ candle 14645 2021 2024 2020 2023
    ∷ []

abbrev sweeping : List (Candle Fixed)
sweeping =
    candle 14400 2000 2005 1995 2000
    ∷ candle 14415 2000 2005 1995 2000
    ∷ candle 14430 2000 2005 1995 2000
    ∷ candle 14445 2000 2005 1995 2000
    ∷ candle 14460 2000 2005 1995 2000
    ∷ candle 14475 2000 2005 1995 2000
    ∷ candle 14490 2000 2005 1995 2000
    ∷ candle 14505 2000 2005 1995 2000
    ∷ candle 14520 2000 2005 1995 2000
    ∷ candle 14535 2000 2005 1995 2000
    ∷ candle 14550 2000 2040 1995 2000
    ∷ candle 14565 2000 2005 1995 2000
    ∷ candle 14580 2000 2005 1995 2000
    ∷ candle 14595 2000 2005 1995 2000
    ∷ candle 14610 2000 2005 1995 2000
    ∷ candle 14625 2000 2005 1995 2000
    ∷ candle 14640 2000 2005 1995 2000
    ∷ candle 14655 2000 2005 1995 2000
    ∷ candle 14670 2000 2005 1995 2000
    ∷ candle 14685 2000 2005 1995 2000
    ∷ candle 14700 2000 2005 1990 2000
    ∷ candle 14715 2000 2005 1995 2000
    ∷ candle 14730 2000 2005 1995 2000
    ∷ candle 14745 2000 2005 1995 2000
    ∷ candle 14760 2000 2005 1995 2000
    ∷ candle 14775 2000 2005 1995 2000
    ∷ candle 14790 2000 2005 1995 2000
    ∷ candle 14805 2000 2005 1995 2000
    ∷ candle 14820 2000 2005 1985 2000
    ∷ candle 14835 2000 2005 1995 2000
    ∷ candle 14850 2000 2005 1995 2000
    ∷ candle 14865 2000 2005 1995 2000
    ∷ candle 14880 2000 2005 1995 2000
    ∷ candle 14895 2000 2005 1995 2000
    ∷ candle 14910 2000 2005 1995 2000
    ∷ candle 14925 2001 2003 1996 1997
    ∷ candle 14940 1997 2025 1996 2024
    ∷ candle 14955 2024 2028 2020 2023
    ∷ candle 14970 2024 2028 2020 2023
    ∷ candle 14985 2024 2028 2020 2023
    ∷ []

abbrev candles : Timeframe → List (Candle Fixed)
candles m5 = turning
candles m15 = sweeping
candles h4 = rising
candles _ = []

abbrev pub purchase_market : MmxmAnalysisInput Fixed
purchase_market = record { candles = candles; config = default_strategy_config }
