-- ===== src/Tracker/Tables.antt =====
-- The tables of the methods, `Re` and `Se`: for each its name, field, number and conversion.
use demolition_app.Base.{ℕ, String, none, some, List, [], ◌∷◌}
use demolition_app.Tracker.FieldNames.{
  name, account, visitor, client_info, detect_title, detect_flash, gif_path, service_mode,
  namespace, allow_linker, sample_rate, campaign_track, allow_anchor, name_key, content_key, id_key,
  medium_key, no_override_key, source_key, term_key, click_id_key, cookie_path, max_vars,
  visitor_timeout, session_timeout, campaign_timeout, referrer, speed_rate, store_gac, to_text,
  to_number, to_flag, to_ms, as_is, Getter, Setter,
}

unfoldable pub getters : List Getter
getters =
    record { method = "_getName"; field = name; call = 58; conversion = as_is }
    ∷ record { method = "_getAccount"; field = account; call = 64; conversion = as_is }
    ∷ record { method = "_visitCode"; field = visitor; call = 54; conversion = as_is }
    ∷ record { method = "_getClientInfo"; field = client_info; call = 53; conversion = to_number }
    ∷ record { method = "_getDetectTitle"; field = detect_title; call = 56; conversion = to_number }
    ∷ record { method = "_getDetectFlash"; field = detect_flash; call = 65; conversion = to_number }
    ∷ record { method = "_getLocalGifPath"; field = gif_path; call = 57; conversion = as_is }
    ∷ record { method = "_getServiceMode"; field = service_mode; call = 59; conversion = as_is }
    ∷ []

unfoldable pub setters : List Setter
setters =
    record {
      method = "_setClientInfo";
      field = client_info;
      call = 66;
      conversion = to_flag;
      fixed = none;
    }
    ∷ record { method = "_setAccount"; field = account; call = 3; conversion = as_is; fixed = none }
    ∷ record {
      method = "_setNamespace";
      field = namespace;
      call = 48;
      conversion = as_is;
      fixed = none;
    }
    ∷ record {
      method = "_setAllowLinker";
      field = allow_linker;
      call = 11;
      conversion = to_flag;
      fixed = none;
    }
    ∷ record {
      method = "_setDetectFlash";
      field = detect_flash;
      call = 61;
      conversion = to_flag;
      fixed = none;
    }
    ∷ record {
      method = "_setDetectTitle";
      field = detect_title;
      call = 62;
      conversion = to_flag;
      fixed = none;
    }
    ∷ record {
      method = "_setLocalGifPath";
      field = gif_path;
      call = 46;
      conversion = to_text;
      fixed = none;
    }
    ∷ record {
      method = "_setLocalServerMode";
      field = service_mode;
      call = 92;
      conversion = as_is;
      fixed = some 0;
    }
    ∷ record {
      method = "_setRemoteServerMode";
      field = service_mode;
      call = 63;
      conversion = as_is;
      fixed = some 1;
    }
    ∷ record {
      method = "_setLocalRemoteServerMode";
      field = service_mode;
      call = 47;
      conversion = as_is;
      fixed = some 2;
    }
    ∷ record {
      method = "_setSampleRate";
      field = sample_rate;
      call = 45;
      conversion = to_number;
      fixed = none;
    }
    ∷ record {
      method = "_setCampaignTrack";
      field = campaign_track;
      call = 36;
      conversion = to_flag;
      fixed = none;
    }
    ∷ record {
      method = "_setAllowAnchor";
      field = allow_anchor;
      call = 7;
      conversion = to_flag;
      fixed = none;
    }
    ∷ record {
      method = "_setCampNameKey";
      field = name_key;
      call = 41;
      conversion = as_is;
      fixed = none;
    }
    ∷ record {
      method = "_setCampContentKey";
      field = content_key;
      call = 38;
      conversion = as_is;
      fixed = none;
    }
    ∷ record {
      method = "_setCampIdKey";
      field = id_key;
      call = 39;
      conversion = as_is;
      fixed = none;
    }
    ∷ record {
      method = "_setCampMediumKey";
      field = medium_key;
      call = 40;
      conversion = as_is;
      fixed = none;
    }
    ∷ record {
      method = "_setCampNOKey";
      field = no_override_key;
      call = 42;
      conversion = as_is;
      fixed = none;
    }
    ∷ record {
      method = "_setCampSourceKey";
      field = source_key;
      call = 43;
      conversion = as_is;
      fixed = none;
    }
    ∷ record {
      method = "_setCampTermKey";
      field = term_key;
      call = 44;
      conversion = as_is;
      fixed = none;
    }
    ∷ record {
      method = "_setCampCIdKey";
      field = click_id_key;
      call = 37;
      conversion = as_is;
      fixed = none;
    }
    ∷ record {
      method = "_setCookiePath";
      field = cookie_path;
      call = 9;
      conversion = to_text;
      fixed = none;
    }
    ∷ record {
      method = "_setMaxCustomVariables";
      field = max_vars;
      call = 0;
      conversion = to_number;
      fixed = none;
    }
    ∷ record {
      method = "_setVisitorCookieTimeout";
      field = visitor_timeout;
      call = 28;
      conversion = to_number;
      fixed = none;
    }
    ∷ record {
      method = "_setSessionCookieTimeout";
      field = session_timeout;
      call = 26;
      conversion = to_number;
      fixed = none;
    }
    ∷ record {
      method = "_setCampaignCookieTimeout";
      field = campaign_timeout;
      call = 29;
      conversion = to_number;
      fixed = none;
    }
    ∷ record {
      method = "_setReferrerOverride";
      field = referrer;
      call = 49;
      conversion = as_is;
      fixed = none;
    }
    ∷ record {
      method = "_setSiteSpeedSampleRate";
      field = speed_rate;
      call = 132;
      conversion = as_is;
      fixed = none;
    }
    ∷ record {
      method = "_storeGac";
      field = store_gac;
      call = 143;
      conversion = as_is;
      fixed = none;
    }
    ∷ record {
      method = "_setSessionTimeout";
      field = session_timeout;
      call = 27;
      conversion = to_ms;
      fixed = none;
    }
    ∷ record {
      method = "_setCookieTimeout";
      field = campaign_timeout;
      call = 25;
      conversion = to_ms;
      fixed = none;
    }
    ∷ record {
      method = "_setCookiePersistence";
      field = visitor_timeout;
      call = 24;
      conversion = to_number;
      fixed = none;
    }
    ∷ []

-- The other methods, with their numbers.
unfoldable pub calls : List (String × ℕ)
calls =
    ("_trackPageview", 1)
    ∷ ("_trackEvent", 4)
    ∷ ("_trackPageLoadTime", 100)
    ∷ ("_trackSocial", 104)
    ∷ ("_trackTrans", 18)
    ∷ ("_sendXEvent", 78)
    ∷ ("_createEventTracker", 74)
    ∷ ("_getVersion", 60)
    ∷ ("_setDomainName", 6)
    ∷ ("_setAllowHash", 8)
    ∷ ("_getLinkerUrl", 52)
    ∷ ("_link", 101)
    ∷ ("_linkByPost", 102)
    ∷ ("_setTrans", 20)
    ∷ ("_addTrans", 21)
    ∷ ("_addItem", 19)
    ∷ ("_clearTrans", 105)
    ∷ ("_setTransactionDelim", 82)
    ∷ ("_setCustomVar", 10)
    ∷ ("_deleteCustomVar", 35)
    ∷ ("_getVisitorCustomVar", 50)
    ∷ ("_setXKey", 83)
    ∷ ("_setXValue", 84)
    ∷ ("_getXKey", 76)
    ∷ ("_getXValue", 77)
    ∷ ("_clearXKey", 72)
    ∷ ("_clearXValue", 73)
    ∷ ("_createXObj", 75)
    ∷ ("_addIgnoredOrganic", 15)
    ∷ ("_clearIgnoredOrganic", 97)
    ∷ ("_addIgnoredRef", 31)
    ∷ ("_clearIgnoredRef", 32)
    ∷ ("_addOrganic", 14)
    ∷ ("_clearOrganic", 70)
    ∷ ("_cookiePathCopy", 30)
    ∷ ("_get", 106)
    ∷ ("_set", 107)
    ∷ ("_addEventListener", 108)
    ∷ ("_removeEventListener", 109)
    ∷ ("_getPlugin", 122)
    ∷ ("_setPageGroup", 126)
    ∷ ("_trackTiming", 124)
    ∷ ("_initData", 2)
    ∷ ("_setVar", 22)
    ∷ ("_setAutoTrackOutbound", 79)
    ∷ ("_setTrackOutboundSubdomains", 81)
    ∷ ("_setHrefExamineLimit", 80)
    ∷ []
